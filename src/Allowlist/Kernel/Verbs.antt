-- ===== src/Allowlist/Kernel/Verbs.antt =====
-- The denied verbs among the arguments of `ip` and `bridge`.
use net_twin.Prelude.{
  inl, inr, ◌⊎◌, ◌≡◌, refl, String, Bool, true, false, not, ◌&&◌, List, [], ◌∷◌, string_eq,
  contains, arith,
}
use net_twin.Prelude.Result.{ok}
use net_twin.Allowlist.Kernel.{
  Denial, ip_flags, ip_objects, ip_verbs_denied, bridge_objects, skip_flags, skip_verb, any_in,
  check_object, check_ip, check_bridge, ip_object, ip_form, bridge_object, bridge_form,
}

-- No text is in both lists.
abbrev disjoint : List String → List String → Bool
disjoint [] ys = true
disjoint (x ∷ xs) ys = not (contains ys x) && disjoint xs ys

disjoint-contains :
    (xs ys : List String) (t : String)
    → disjoint xs ys ≡ true
    → contains xs t ≡ true
    → contains ys t ≡ false
disjoint-contains [] ys t d h = cc
disjoint-contains (x ∷ xs) ys t d h = ground (arith, disjoint-contains xs ys t)

skip_flags-any_in :
    (flags denied args : List String)
    → disjoint flags denied ≡ true
    → any_in denied (skip_flags flags args) ≡ false
    → any_in denied args ≡ false
unfolding skip_flags any_in
skip_flags-any_in flags denied [] d h = refl
skip_flags-any_in flags denied (t ∷ r) d h =
    ground (arith, skip_flags-any_in flags denied r, disjoint-contains flags denied t)

skip_verb-any_in :
    (verbs denied args : List String)
    → disjoint verbs denied ≡ true
    → any_in denied (skip_verb verbs args) ≡ false
    → any_in denied args ≡ false
unfolding skip_verb any_in
skip_verb-any_in verbs denied [] d h = refl
skip_verb-any_in verbs denied (t ∷ r) d h = ground (arith, disjoint-contains verbs denied t)

check_object-any_in :
    (objects verbs : List String) (e f : Denial) (args : List String)
    → disjoint objects ip_verbs_denied ≡ true
    → disjoint verbs ip_verbs_denied ≡ true
    → check_object objects verbs e f args ≡ ok tt
    → any_in ip_verbs_denied args ≡ false
unfolding check_object any_in
check_object-any_in objects verbs e f [] d d' h = refl
check_object-any_in objects verbs e f (o ∷ r) d d' h =
    ground
      (arith, disjoint-contains objects ip_verbs_denied o, skip_verb-any_in verbs ip_verbs_denied r)

ip_disjoint :
    (disjoint ip_flags ip_verbs_denied ≡ true)
    × (disjoint ip_objects ip_verbs_denied ≡ true)
    × (disjoint bridge_objects ip_verbs_denied ≡ true)
    × (disjoint ("show" ∷ "list" ∷ "ls" ∷ "get" ∷ []) ip_verbs_denied ≡ true)
unfolding string_eq
ip_disjoint = (refl, refl, refl, refl)

check_ip-any_in : (args : List String) → check_ip args ≡ ok tt → any_in ip_verbs_denied args ≡ false
unfolding check_ip
check_ip-any_in args h = skip_flags-any_in ip_flags ip_verbs_denied args ip_disjoint.0 (
    check_object-any_in ip_objects ("show" ∷ "list" ∷ "ls" ∷ "get" ∷ []) ip_object ip_form _
      ip_disjoint.1 ip_disjoint.3 h)

bridge_verbs : disjoint ("show" ∷ "list" ∷ []) ip_verbs_denied ≡ true
unfolding string_eq
bridge_verbs = refl

check_bridge-any_in :
    (args : List String) → check_bridge args ≡ ok tt → any_in ip_verbs_denied args ≡ false
unfolding check_bridge
check_bridge-any_in args h = skip_flags-any_in ip_flags ip_verbs_denied args ip_disjoint.0 (
    check_object-any_in bridge_objects ("show" ∷ "list" ∷ []) bridge_object bridge_form _
      ip_disjoint.2 bridge_verbs h)

-- No argument of an accepted ip or bridge command, at any place, is one of the denied verbs as
-- written in the list.
pub check-any_in :
    (args : List String)
    → (check_ip args ≡ ok tt) ⊎ (check_bridge args ≡ ok tt)
    → any_in ip_verbs_denied args ≡ false
check-any_in args (inl h) = check_ip-any_in args h
check-any_in args (inr h) = check_bridge-any_in args h
