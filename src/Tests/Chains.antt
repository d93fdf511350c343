-- ===== src/Tests/Chains.antt =====
-- A chain of nft rules as a node prints it, and the look-up of a handle in it.
use net_twin.Prelude.{ℕ, suc, ◌≡◌, refl, ◌⊎◌, String, false, none, some, string_eq, nat_eq}
use net_twin.Prelude.Text.{is_line_end, is_space, strip, int, split, join}
use net_twin.Prelude.Words.{words, cons_word}
use net_twin.Prelude.Int.{pos}
use net_twin.Prelude.Result.{ok, err}
use net_twin.Core.Executor.{ExecResult, Executor, Fault, succeeded}
use net_twin.Core.Ops.{NftRule, delete, inet}
use net_twin.TwinLab.Apply.{
  failed, apply_error, list_chain, failure_text, find_handle, resolve_nft_handle,
}
use net_twin.TwinLab.Apply.Handles.{Looked, resolve_nft_handle-cases}

abbrev printed : String
printed =
    "chain forward {\n  ip protocol icmp accept # handle 4\n  tcp dport 80 drop # handle 7\n}\n"

-- Prints the chain at every call, and counts the calls.
abbrev printing : Executor ℕ
printing = record {
  exec = λ node argv timeout stdin n. (
    ok (record {
      node = node;
      argv = argv;
      returncode = pos 0;
      stdout = printed;
      stderr = "";
      truncated = false;
      timed_out = false;
    }),
    suc n,
  );
}

abbrev drop_web : NftRule
drop_web = record {
  action = delete;
  family = inet;
  table = "filter";
  chain = "forward";
  rule = some "tcp dport 80 drop";
  handle = none;
  index = none;
}

resolve_nft_handle_test : resolve_nft_handle printing "r1" drop_web 0 ≡ (ok 7, 1)
unfolding resolve_nft_handle find_handle succeeded words cons_word is_line_end string_eq join split
    is_space strip int
resolve_nft_handle_test = refl

resolve_nft_handle-cases_example :
    ((e : Fault) × (w' : ℕ) × (printing.exec "r1" (list_chain drop_web) 10 none 0 ≡ (err e, w'))
      × (resolve_nft_handle printing "r1" drop_web 0 ≡ (err (failed e), w')))
    ⊎ ((res : ExecResult) × (w' : ℕ) × (printing.exec "r1" (list_chain drop_web) 10 none 0
          ≡ (ok res, w'))
        × (((succeeded res ≡ false)
              × (resolve_nft_handle printing "r1" drop_web 0
                  ≡ (err (apply_error "r1" (list_chain drop_web) (failure_text res)), w')))
            ⊎ Looked printing "r1" drop_web (words is_line_end res.stdout) 0 w'))
resolve_nft_handle-cases_example = resolve_nft_handle-cases printing "r1" drop_web 0
