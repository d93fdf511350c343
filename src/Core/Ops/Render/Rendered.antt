-- ===== src/Core/Ops/Render/Rendered.antt =====
-- Control characters in the arguments of a rendered operation.
use net_twin.Prelude.{
  ℕ, ◌≡◌, refl, String, ◌<>◌, Bool, true, false, ◌&&◌, List, [], ◌∷◌, ◌++◌, Option, none, some,
  arith,
}
use net_twin.Prelude.Text.{is_space}
use net_twin.Prelude.Chars.{all_words, all_chars-append}
use net_twin.Prelude.Words.{all_words-words}
use net_twin.Prelude.Decimal.{show}
use net_twin.Prelude.Result.{ok}
use net_twin.Core.Ops.{
  Op, frr_lines, set_mtu, set_addr, add_vlan, del_vlan, bridge_vlan, nft_rule, NftRule, NftAction,
  NftFamily, Direction, add_vid, del_vid, add, insert, delete, flush_chain, inet, ip, ip6,
  is_control, validate,
}
use net_twin.Core.Ops.Render.{
  Argv, render, flag_lines, link_name, family_name, direction, optional, location, index_args,
  rule_tokens, with_rule, delete_rule, render_nft,
}
use net_twin.Core.Ops.Safe.{
  is_clean, is_printable, is_clean_op, is_clean_opt, show-clean, validate-clean,
}

-- Every argument of every command passes a test.
unfoldable pub all_argv : (String → Bool) → List Argv → Bool
all_argv p [] = true
all_argv p (a ∷ more) = all_words p a && all_argv p more

all_words-append :
    (p : String → Bool) (xs ys : List String)
    → all_words p xs ≡ true
    → all_words p ys ≡ true
    → all_words p (xs ++ ys) ≡ true
all_words-append p [] ys h k = k
all_words-append p (x ∷ xs) ys h k = ground (arith, all_words-append p xs ys)

flag_lines-clean :
    (ls : List String) → all_words is_clean ls ≡ true → all_words is_clean (flag_lines ls) ≡ true
unfolding flag_lines is_control
flag_lines-clean [] h = refl
flag_lines-clean (l ∷ ls) h = ground (arith, flag_lines-clean ls)

dot_clean : is_clean "." ≡ true
unfolding is_control
dot_clean = refl

dotted_clean : (p : String) (v : ℕ) → is_clean p ≡ true → is_clean (p <> ("." <> show v)) ≡ true
dotted_clean p v h =
    all_chars-append is_printable p ("." <> show v) h
      (all_chars-append is_printable "." (show v) dot_clean (show-clean v))

link_name-clean :
    (p : String) (v : ℕ) (n : Option String)
    → is_clean p ≡ true
    → is_clean_opt n ≡ true
    → is_clean (link_name p v n) ≡ true
unfolding link_name is_clean_opt
link_name-clean p v none h k = dotted_clean p v h
link_name-clean p v (some n) h k = ground (arith, dotted_clean p v h)

optional-clean :
    (b : Bool) (w : String) → is_clean w ≡ true → all_words is_clean (optional b w) ≡ true
unfolding optional
optional-clean true w h = ground arith
optional-clean false w h = refl

family_name-clean : (f : NftFamily) → is_clean (family_name f) ≡ true
unfolding family_name is_control
family_name-clean inet = refl
family_name-clean ip = refl
family_name-clean ip6 = refl

direction-clean : (d : Direction) → is_clean (direction d) ≡ true
unfolding direction is_control
direction-clean add_vid = refl
direction-clean del_vid = refl

index_args-clean : (o : Option ℕ) → all_words is_clean (index_args o) ≡ true
unfolding index_args is_control
index_args-clean none = refl
index_args-clean (some n) = ground (arith, show-clean n)

rule_tokens-clean :
    (o : Option String) → is_clean_opt o ≡ true → all_words is_clean (rule_tokens o) ≡ true
unfolding rule_tokens is_clean_opt
rule_tokens-clean none h = refl
rule_tokens-clean (some t) h = all_words-words is_space is_printable t h

location-clean :
    (r : NftRule)
    → is_clean r.table ≡ true
    → is_clean r.chain ≡ true
    → all_words is_clean (location r) ≡ true
unfolding location
location-clean r h k = ground (arith, family_name-clean r.family)

with_rule-clean :
    (a : String) (r : NftRule)
    → is_clean a ≡ true
    → (is_clean r.table && is_clean r.chain && is_clean_opt r.rule) ≡ true
    → all_argv is_clean (with_rule a r) ≡ true
unfolding with_rule all_argv is_control
with_rule-clean a r h k =
    let options =
      all_words-append is_clean (index_args r.index) (rule_tokens r.rule) (index_args-clean r.index)
        (rule_tokens-clean r.rule (ground arith)) in
    let line =
      all_words-append is_clean (location r) (index_args r.index ++ rule_tokens r.rule)
        (location-clean r (ground arith) (ground arith)) options in
    ground arith

delete_rule-clean :
    (r : NftRule) (handle : Option ℕ) (argvs : List Argv)
    → is_clean r.table ≡ true
    → is_clean r.chain ≡ true
    → delete_rule r handle ≡ ok argvs
    → all_argv is_clean argvs ≡ true
unfolding delete_rule all_argv is_control
delete_rule-clean r none argvs h k e = ground arith
delete_rule-clean r (some n) argvs h k e =
    let line =
      all_words-append is_clean (location r) ("handle" ∷ show n ∷ []) (location-clean r h k)
        (ground (arith, show-clean n)) in
    ground (arith, line)

render_nft-clean :
    (a : NftAction) (r : NftRule) (argvs : List Argv)
    → (is_clean r.table && is_clean r.chain && is_clean_opt r.rule) ≡ true
    → render_nft a r ≡ ok argvs
    → all_argv is_clean argvs ≡ true
unfolding render_nft all_argv is_control
render_nft-clean add r argvs h e = ground (arith, with_rule-clean "add" r refl h)
render_nft-clean insert r argvs h e = ground (arith, with_rule-clean "insert" r refl h)
render_nft-clean delete r argvs h e =
    delete_rule-clean r r.handle argvs (ground arith) (ground arith) e
render_nft-clean flush_chain r argvs h e =
    ground (arith, location-clean r (ground arith) (ground arith))

render-clean :
    (op : Op) (argvs : List Argv)
    → is_clean_op op ≡ true
    → render op ≡ ok argvs
    → all_argv is_clean argvs ≡ true
unfolding render is_clean_op all_argv is_control
render-clean (frr_lines ls) argvs h e = ground (arith, flag_lines-clean ls)
render-clean (set_mtu d m) argvs h e = ground (arith, show-clean m)
render-clean (set_addr d a r) argvs h e = ground arith
render-clean (add_vlan p v n) argvs h e = ground (arith, link_name-clean p v n, show-clean v)
render-clean (del_vlan n) argvs h e = ground arith
render-clean (bridge_vlan a d v p u) argvs h e =
    let flags =
      all_words-append is_clean (optional p "pvid") (optional u "untagged")
        (optional-clean p "pvid" refl) (optional-clean u "untagged" refl) in
    ground (arith, direction-clean a, show-clean v, flags)
render-clean (nft_rule r) argvs h e = render_nft-clean r.action r argvs h e

module _ (ip_interface : String → Option String) where
  -- No argument of the commands rendered from a validated operation has a control character, if
  -- the normal forms of addresses have none.
  pub validate-render-clean :
      ((s t : String) → ip_interface s ≡ some t → is_clean t ≡ true)
      → (op op' : Op) (argvs : List Argv) → validate ip_interface op ≡ ok op'
      → render op' ≡ ok argvs
      → all_argv is_clean argvs ≡ true
  validate-render-clean plain op op' argvs h e =
      render-clean op' argvs (validate-clean ip_interface plain op op' h) e
