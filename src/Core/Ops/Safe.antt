-- ===== src/Core/Ops/Safe.antt =====
-- Control characters in the texts of a validated operation.
use Prim.Native.Nat.{◌/◌, ◌%◌}
use Prim.Native.Char.{code}
use Prim.Native.String.{[], ◌∷◌}
use net_twin.Prelude.{
  ℕ, zero, suc, ◌≡◌, refl, String, Bool, true, not, ◌&&◌, List, Option, none, some, Bool-cases,
  Option-cases, inl, inr, arith,
}
use net_twin.Prelude.Text.{is_alpha, is_space, all_chars, any_char, rstrip, join}
use net_twin.Prelude.Chars.{
  all_words, all_chars_mono, all_chars-not, all_chars-append, all_chars-join,
}
use net_twin.Prelude.Words.{words, all_words-words}
use net_twin.Prelude.Decimal.{show, show_fuel, digit}
use net_twin.Prelude.Result.{Result-cases, ok}
use net_twin.Core.Ops.{
  Op, frr_lines, set_mtu, set_addr, add_vlan, del_vlan, bridge_vlan, nft_rule, NftRule, NftAction,
  add, insert, delete, flush_chain, is_control, is_iface_char, is_iface, is_ident_char, is_ident,
  valid_line, valid_lines, valid_text, valid_rule, valid_nft, check_shape, validate,
}

abbrev pub is_printable : ℕ → Bool
is_printable c = not (is_control c)

-- No control character.
abbrev pub is_clean : String → Bool
is_clean = all_chars is_printable

iface_printable : (c : ℕ) → is_iface_char c ≡ true → is_printable c ≡ true
unfolding is_iface_char is_control
iface_printable c h = ground arith

ident_printable : (c : ℕ) → is_ident_char c ≡ true → is_printable c ≡ true
unfolding is_ident_char is_control
ident_printable c h = ground arith

is_iface-clean : (s : String) → is_iface s ≡ true → is_clean s ≡ true
unfolding is_iface
is_iface-clean s h = all_chars_mono is_iface_char is_printable iface_printable s (ground arith)

alpha_ident : (c : ℕ) → is_alpha c ≡ true → is_ident_char c ≡ true
unfolding is_ident_char
alpha_ident c h = ground arith

is_ident-clean : (s : String) → is_ident s ≡ true → is_clean s ≡ true
unfolding is_ident
is_ident-clean [] h = refl
is_ident-clean (c ∷ s) h =
    let rest = all_chars_mono is_ident_char is_printable ident_printable s (ground arith) in
    ground (arith, rest, ident_printable (code c), alpha_ident (code c))

digit-clean : (n : ℕ) → is_clean (digit n) ≡ true
unfolding digit is_control
digit-clean zero = refl
digit-clean (suc zero) = refl
digit-clean (suc (suc zero)) = refl
digit-clean (suc (suc (suc zero))) = refl
digit-clean (suc (suc (suc (suc zero)))) = refl
digit-clean (suc (suc (suc (suc (suc zero))))) = refl
digit-clean (suc (suc (suc (suc (suc (suc zero)))))) = refl
digit-clean (suc (suc (suc (suc (suc (suc (suc zero))))))) = refl
digit-clean (suc (suc (suc (suc (suc (suc (suc (suc zero)))))))) = refl
digit-clean (suc (suc (suc (suc (suc (suc (suc (suc (suc n))))))))) = refl

show_fuel-clean : (f n : ℕ) → is_clean (show_fuel f n) ≡ true
unfolding show_fuel
show_fuel-clean zero n = refl
show_fuel-clean (suc f) n =
    let more =
      all_chars-append is_printable (show_fuel f (n / 10)) (digit (n % 10))
        (show_fuel-clean f (n / 10)) (digit-clean (n % 10)) in
    ground (arith, more, digit-clean n)

pub show-clean : (n : ℕ) → is_clean (show n) ≡ true
unfolding show
show-clean n = show_fuel-clean (suc n) n

pub rstrip-all_chars :
    (p : ℕ → Bool) (s : String) → all_chars p s ≡ true → all_chars p (rstrip s) ≡ true
unfolding rstrip
rstrip-all_chars p [] h = refl
rstrip-all_chars p (c ∷ s) h = ground (arith, rstrip-all_chars p s)

-- The texts of an operation.
unfoldable pub is_clean_opt : Option String → Bool
is_clean_opt none = true
is_clean_opt (some s) = is_clean s

unfoldable pub is_clean_op : Op → Bool
unfolding is_clean_opt
is_clean_op (frr_lines ls) = all_words is_clean ls
is_clean_op (set_mtu d m) = is_clean d
is_clean_op (set_addr d a r) = is_clean d && is_clean a
is_clean_op (add_vlan p v n) = is_clean p && is_clean_opt n
is_clean_op (del_vlan n) = is_clean n
is_clean_op (bridge_vlan a d v p u) = is_clean d
is_clean_op (nft_rule r) = is_clean r.table && is_clean r.chain && is_clean_opt r.rule

valid_line-clean : (l l' : String) → valid_line l ≡ ok l' → is_clean l' ≡ true
unfolding valid_line
valid_line-clean l l' h =
    ground (arith, all_chars-not is_control l, rstrip-all_chars is_printable l)

valid_lines-clean : (ls ls' : List String) → valid_lines ls ≡ ok ls' → all_words is_clean ls' ≡ true
unfolding valid_lines
valid_lines-clean List.[] ls' h = ground arith
valid_lines-clean (List.◌∷◌ l ls) ls' h = elim (Result-cases (valid_line l)) [
  | inr (e, p) ↦ ground (arith, p)
  | inl (l', p) ↦ elim (Result-cases (valid_lines ls)) [
    | inr (e, q) ↦ ground (arith, p, q)
    | inl (r, q) ↦ ground (arith, p, q, valid_line-clean l l' p, valid_lines-clean ls r q)
  ]
]

-- An accepted rule is its words, joined by single blanks, and has no control character.
valid_text-parts :
    (s t : String)
    → valid_text s ≡ ok t
    → (all_chars is_printable s ≡ true) × (join " " (words is_space s) ≡ t)
unfolding valid_text
valid_text-parts s t h = elim (Bool-cases (any_char is_control s)) [
  | inl bad ↦ ground (arith, bad)
  | inr good ↦ (all_chars-not is_control s good, ground arith)
]

pub blank_clean : is_clean " " ≡ true
unfolding is_control
blank_clean = refl

valid_text-clean : (s t : String) → valid_text s ≡ ok t → is_clean t ≡ true
valid_text-clean s t h =
    let (printable, e) = valid_text-parts s t h in
    rw e at (
      all_chars-join is_printable " " (words is_space s) blank_clean
        (all_words-words is_space is_printable s printable))

check_shape-eq : (a : NftAction) (r r' : NftRule) → check_shape a r ≡ ok r' → r ≡ r'
unfolding check_shape
check_shape-eq add r r' h = ground arith
check_shape-eq insert r r' h = ground arith
check_shape-eq delete r r' h = ground arith
check_shape-eq flush_chain r r' h = ground arith

valid_rule-clean : (o o' : Option String) → valid_rule o ≡ ok o' → is_clean_opt o' ≡ true
unfolding valid_rule is_clean_opt
valid_rule-clean none o' h = ground arith
valid_rule-clean (some s) o' h = elim (Result-cases (valid_text s)) [
  | inr (e, p) ↦ ground (arith, p)
  | inl (t, p) ↦ ground (arith, p, valid_text-clean s t p)
]

valid_nft-clean :
    (r r' : NftRule)
    → valid_nft r ≡ ok r'
    → (is_clean r'.table && is_clean r'.chain && is_clean_opt r'.rule) ≡ true
unfolding valid_nft
valid_nft-clean r r' h = elim (Result-cases (valid_rule r.rule)) [
  | inr (e, p) ↦ ground (arith, p)
  | inl (o, p) ↦
      let r'' : NftRule = record r { rule = o } in
      ground (
        arith,
        p,
        is_ident-clean r.table,
        is_ident-clean r.chain,
        valid_rule-clean r.rule o p,
        check_shape-eq r.action r'' r',
      )
]

module _ (ip_interface : String → Option String) where
  -- The texts of a validated operation have no control character, if those of addresses have none.
  pub validate-clean :
      ((s t : String) → ip_interface s ≡ some t → is_clean t ≡ true)
      → (op op' : Op) → validate ip_interface op ≡ ok op'
      → is_clean_op op' ≡ true
  unfolding validate is_clean_op
  validate-clean plain (frr_lines List.[]) op' h = ground arith
  validate-clean plain (frr_lines (List.◌∷◌ l ls)) op' h =
      elim (Result-cases (valid_lines (List.◌∷◌ l ls))) [
        | inr (e, p) ↦ ground (arith, p)
        | inl (r, p) ↦ ground (arith, p, valid_lines-clean (List.◌∷◌ l ls) r p)
      ]
  validate-clean plain (set_mtu d m) op' h = ground (arith, is_iface-clean d)
  validate-clean plain (set_addr d a r) op' h = elim (Option-cases (ip_interface a)) [
    | inl none' ↦ ground (arith, none')
    | inr (t, p) ↦ ground (arith, p, is_iface-clean d, plain a t p)
  ]
  validate-clean plain (add_vlan p v none) op' h = ground (arith, is_iface-clean p)
  validate-clean plain (add_vlan p v (some n)) op' h =
      ground (arith, is_iface-clean p, is_iface-clean n)
  validate-clean plain (del_vlan n) op' h = ground (arith, is_iface-clean n)
  validate-clean plain (bridge_vlan a d v p u) op' h = ground (arith, is_iface-clean d)
  validate-clean plain (nft_rule r) op' h = elim (Result-cases (valid_nft r)) [
    | inr (e, p) ↦ ground (arith, p)
    | inl (r', p) ↦ ground (arith, p, valid_nft-clean r r' p)
  ]
