-- ===== src/Core/Ops.antt =====
-- packages/nettwin_core/src/nettwin_core/ops.py: the typed changes of the twin, their validation
-- and their rendering as argv. pydantic's reading of the untyped input is not modelled: `validate`
-- gets an operation whose fields have their types, and gives the one that the validators leave.
pub mod Render
pub mod Safe
use Prim.Native.Char.{code}
use Prim.Native.String.{[], ◌∷◌}
use mathlib.Core.List
use mathlib.Core.Option
use net_twin.Prelude.{
  ℕ, zero, suc, String, ◌<>◌, Bool, true, false, not, ◌&&◌, ◌||◌, List, ◌++◌, Option, none, some,
  leb, ◌==◌, contains, string_eq, if◌then◌else◌, map,
}
use net_twin.Prelude.Text.{
  length, is_empty, all_chars, any_char, is_alpha, is_digit, is_space, one_of, between, startswith,
  join, rstrip, lstrip,
}
use net_twin.Prelude.Words.{words}
use net_twin.Prelude.Decimal.{show}
use net_twin.Prelude.Result.{Result, ok, err, require, ◌>>=◌, ◌>>◌}
use net_twin.Core.Executor.{is_node_name}

-- `IFACE_RE` and `IDENT_RE`, matched as a whole.
unfoldable pub is_iface_char : ℕ → Bool
is_iface_char c = is_alpha c || is_digit c || one_of "_.:-" c

unfoldable pub is_iface : String → Bool
unfolding is_iface_char
is_iface s = not (is_empty s) && all_chars is_iface_char s && leb (length s) 15

unfoldable pub is_ident_char : ℕ → Bool
is_ident_char c = is_alpha c || is_digit c || one_of "_-" c

unfoldable pub is_ident : String → Bool
unfolding is_ident_char
is_ident [] = false
is_ident (c ∷ s) = is_alpha (code c) && all_chars is_ident_char s && leb (length s) 31

-- `_CONTROL_RE` and `_NFT_FORBIDDEN_RE`
unfoldable pub is_control : ℕ → Bool
is_control c = between 0 31 c || between 127 127 c

unfoldable pub is_nft_forbidden : ℕ → Bool
is_nft_forbidden c = one_of ";\"'`$\\#" c

pub data Direction : Type 0 where
  add_vid del_vid : Direction

pub data NftAction : Type 0 where
  add insert delete flush_chain : NftAction

pub data NftFamily : Type 0 where
  inet ip ip6 : NftFamily

pub record NftRule : Type 0 where
  pub action : NftAction
  pub family : NftFamily
  pub table : String
  pub chain : String
  pub rule : Option String
  pub handle : Option ℕ
  pub index : Option ℕ

pub data Op : Type 0 where
  frr_lines : List String → Op
  set_mtu : String → ℕ → Op
  set_addr : String → String → Bool → Op
  add_vlan : String → ℕ → Option String → Op
  del_vlan : String → Op
  bridge_vlan : Direction → String → ℕ → Bool → Bool → Op
  nft_rule : NftRule → Op

-- The messages of the validators.
pub data Invalid : Type 0 where
  no_lines control_characters empty_line comment_line : Invalid
  bad_iface bad_ident bad_address : String → Invalid
  out_of_range : ℕ → Invalid
  rule_characters empty_rule include_rule : Invalid
  needs_rule needs_handle takes_neither : Invalid
  bad_node : String → Invalid

abbrev pub Valid : Type 0 → Type 0
Valid A = Result Invalid A

iface : String → Valid String
iface s = if is_iface s then ok s else err (bad_iface s)

ident : String → Valid String
ident s = if is_ident s then ok s else err (bad_ident s)

-- `Field(ge=lo, le=hi)`
in_range : ℕ → ℕ → ℕ → Valid ℕ
in_range lo hi n = if between lo hi n then ok n else err (out_of_range n)

unfoldable pub valid_line : String → Valid String
valid_line line = do
  require (not (any_char is_control line)) control_characters
  let stripped = rstrip line
  require (not (all_chars is_space stripped)) empty_line
  require (not (startswith (lstrip stripped) "!")) comment_line
  ok stripped

unfoldable pub valid_lines : List String → Valid (List String)
valid_lines List.[] = ok List.[]
valid_lines (List.◌∷◌ l ls) = do l' ← valid_line l; ls' ← valid_lines ls; ok (List.◌∷◌ l' ls')

-- A non-empty list, as `Field(min_length=1)` wants it.
unfoldable pub valid_frr : List String → Valid (List String)
valid_frr List.[] = err no_lines
valid_frr (List.◌∷◌ l ls) = valid_lines (List.◌∷◌ l ls)

abbrev pub has_word : List String → Bool
has_word List.[] = false
has_word (List.◌∷◌ t ts) = true

unfoldable pub valid_text : String → Valid String
valid_text value = do
  require (not (any_char is_control value || any_char is_nft_forbidden value)) rule_characters
  let tokens = words is_space value
  require (has_word tokens) empty_rule
  require (not (contains tokens "include")) include_rule
  ok (join " " tokens)

unfoldable pub valid_rule : Option String → Valid (Option String)
valid_rule none = ok none
valid_rule (some value) = do t ← valid_text value; ok (some t)

-- `if self.rule`: a rule that is there and not empty.
unfoldable pub has_text : Option String → Bool
has_text none = false
has_text (some s) = not (is_empty s)

unfoldable pub has : {A : Type 0} → Option A → Bool
has none = false
has (some a) = true

-- `NftRule._check_shape`
unfoldable pub check_shape : NftAction → NftRule → Valid NftRule
check_shape add r = if has_text r.rule then ok r else err needs_rule
check_shape insert r = if has_text r.rule then ok r else err needs_rule
check_shape delete r =
    if not (has r.handle) && not (has_text r.rule) then err needs_handle else ok r
check_shape flush_chain r = if has_text r.rule || has r.handle then err takes_neither else ok r

unfoldable pub valid_nft : NftRule → Valid NftRule
unfolding ident
valid_nft r = do
  table ← ident r.table
  chain ← ident r.chain
  rule ← valid_rule r.rule
  check_shape r.action (record r { table = table; chain = chain; rule = rule })

valid_name : Option String → Valid (Option String)
valid_name none = ok none
valid_name (some s) = do n ← iface s; ok (some n)

-- `ip_interface` gives the canonical text of an address with its prefix, where it is one.
module _ (ip_interface : String → Option String) where
  valid_address : String → Valid String
  valid_address value =
      if any_char (between b'/' b'/') value
      then elim (ip_interface value) [ some a ↦ ok a | none ↦ err (bad_address value) ]
      else err (bad_address value)

  unfoldable pub validate : Op → Valid Op
  unfolding iface valid_frr valid_nft valid_name valid_address in_range
  validate (frr_lines lines) = do ls ← valid_frr lines; ok (frr_lines ls)
  validate (set_mtu dev mtu) = do d ← iface dev; m ← in_range 68 9216 mtu; ok (set_mtu d m)
  validate (set_addr dev address replace) = do
    d ← iface dev
    a ← valid_address address
    ok (set_addr d a replace)
  validate (add_vlan parent vlan_id name) = do
    p ← iface parent
    v ← in_range 1 4094 vlan_id
    n ← valid_name name
    ok (add_vlan p v n)
  validate (del_vlan name) = do n ← iface name; ok (del_vlan n)
  validate (bridge_vlan action dev vlan_id pvid untagged) = do
    d ← iface dev
    v ← in_range 1 4094 vlan_id
    ok (bridge_vlan action d v pvid untagged)
  validate (nft_rule r) = do r' ← valid_nft r; ok (nft_rule r')
