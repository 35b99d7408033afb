-- ===== src/Routing/Choosing.antt =====
-- crates/paws_core/src/routing.rs: what GLOBAL is set to, and when it is not.
use paws.Base.{
  ◌≡◌, refl, ap, sym, ◌∙◌, subst, ◌⊎◌, inl, inr, Text, text, Bool, true, false, Option, none, some,
  List, [], ◌∷◌, text_eq, holds, if◌then◌else◌, arith,
}
use paws.Routing.{
  Proxy, Table, find_proxy, contains, is_valid_target, first_valid, direct_or_first, choose_target,
  is_current, resolve, settle, ensure_members, ensure_found, ensure_global_proxy_selected, Choice,
  refused, chosen, no_direct, not_selectable, bad_target, Ensured, fails, unresolved, ensures,
}

-- A member that may be selected: DIRECT, or a proxy that is no group and leads through a proxy.
abbrev pub IsCandidate : Table → List Text → Text → Type 0
IsCandidate table members target =
    ((target ≡ text "DIRECT") × (contains target members ≡ true))
    ⊎ (is_valid_target table members target ≡ true)

abbrev pub Agrees : Option Text → Text → Type 0
Agrees none target = Unit {0}
Agrees (some required) target = target ≡ required

-- A candidate that is the one required, if one is, or a refusal when there is none.
abbrev pub IsChoice : Table → List Text → Option Text → Choice → Type 0
IsChoice table members required (chosen target) =
    Agrees required target × IsCandidate table members target
IsChoice table members required (refused error) =
    (target : Text) → Agrees required target → IsCandidate table members target → ⊥

-- The same of the answer, in which GLOBAL has the candidate as its current member.
abbrev pub Answers : Table → List Text → Option Text → Ensured → Type 0
Answers table members required (fails error) = IsChoice table members required (refused error)
Answers table members required (unresolved global) = ⊥
Answers table members required (ensures none global) = ⊥
Answers table members required (ensures (some target) global) =
    (is_current global target ≡ true) × IsChoice table members required (chosen target)

abbrev FirstValid : (Text → Bool) → List Text → Choice → Type 0
FirstValid valid members (chosen target) = valid target ≡ true
FirstValid valid members (refused error) =
    (target : Text) → contains target members ≡ true → valid target ≡ false

first_valid-FirstValid :
    (valid : Text → Bool) (members : List Text)
    → FirstValid valid members (first_valid valid members)
unfolding first_valid contains
first_valid-FirstValid valid [] = λ target h. ground (arith, h)
first_valid-FirstValid valid (m ∷ ms) =
    go (valid m) refl (first_valid valid ms) (first_valid-FirstValid valid ms)
  where
    go :
        (b : Bool)
        → valid m ≡ b
        → (rest : Choice) → FirstValid valid ms rest
        → FirstValid valid (m ∷ ms) (if b then chosen m else rest)
    go true h rest k = h
    go false h (chosen t) k = k
    go false h (refused e) k = λ target c. elim (text_eq.same target m) [
      | yes same ↦ ap valid same ∙ h
      | no other ↦ k target (ground (arith, c, other))
    ]

valid-contains :
    (table : Table) (members : List Text) (target : Text)
    → is_valid_target table members target ≡ true
    → contains target members ≡ true
unfolding is_valid_target
valid-contains table members target h = ground (arith, h)

direct_or_first-IsChoice :
    (table : Table) (members : List Text)
    → IsChoice table members none (direct_or_first table members)
unfolding direct_or_first
direct_or_first-IsChoice table members =
    go (contains (text "DIRECT") members) refl (first_valid (is_valid_target table members) members)
      (first_valid-FirstValid (is_valid_target table members) members)
  where
    refuse :
        contains (text "DIRECT") members ≡ false
        → ((t : Text) → contains t members ≡ true → is_valid_target table members t ≡ false)
        → (t : Text) → IsCandidate table members t
        → ⊥
    refuse h k t (inl (d, c)) = ground (arith, sym (ap (λ name. contains name members) d) ∙ c, h)
    refuse h k t (inr v) = ground (arith, v, k t (valid-contains table members t v))

    go :
        (b : Bool)
        → contains (text "DIRECT") members ≡ b
        → (rest : Choice) → FirstValid (is_valid_target table members) members rest
        → IsChoice table members none (if b then chosen (text "DIRECT") else rest)
    go true h rest k = (tt, inl (refl, h))
    go false h (chosen t) k = (tt, inr k)
    go false h (refused e) k = λ t a c. refuse h k t c

choose_target-IsChoice :
    (table : Table) (members : List Text) (current required : Option Text)
    → IsChoice table members required (choose_target table members current required)
unfolding choose_target
choose_target-IsChoice table members current (some r) = go (text_eq.same r (text "DIRECT"))
  where
    wants_direct :
        r ≡ text "DIRECT"
        → (b : Bool) → contains (text "DIRECT") members ≡ b
        → IsChoice table members (some r) (if b then chosen r else refused no_direct)
    wants_direct d true h = (refl, inl (d, ap (λ name. contains name members) d ∙ h))
    wants_direct d false h = λ t a c. elim c [
      | inl (e, k) ↦ ground (arith, sym (ap (λ name. contains name members) e) ∙ k, h)
      | inr v ↦
          ground
            (arith, valid-contains table members t v, ap (λ name. contains name members) (a ∙ d), h)
    ]

    wants :
        (r ≡ text "DIRECT" → ⊥)
        → (b : Bool) → is_valid_target table members r ≡ b
        → IsChoice table members (some r) (if b then chosen r else refused (bad_target r))
    wants n true h = (refl, inr h)
    wants n false h = λ t a c. elim c [
      | inl (d, _) ↦ n (sym a ∙ d)
      | inr v ↦ ground (arith, sym (ap (is_valid_target table members) a) ∙ v, h)
    ]

    go :
        (d : Dec (r ≡ text "DIRECT"))
        → IsChoice table members (some r) (
            if holds d
            then (if contains (text "DIRECT") members then chosen r else refused no_direct)
            else if is_valid_target table members r
            then chosen r
            else refused (bad_target r))
    go (yes d) = wants_direct d (contains (text "DIRECT") members) refl
    go (no n) = wants n (is_valid_target table members r) refl
choose_target-IsChoice table members (some c) none = keeps (is_valid_target table members c) refl
  where
    keeps :
        (b : Bool)
        → is_valid_target table members c ≡ b
        → IsChoice table members none (if b then chosen c else direct_or_first table members)
    keeps true h = (tt, inr h)
    keeps false h = direct_or_first-IsChoice table members
choose_target-IsChoice table members none none = direct_or_first-IsChoice table members

resolve-Answers :
    (table : Table) (members : List Text) (required : Option Text) (global : Proxy) (target : Text)
    → is_current global target ≡ true
    → IsChoice table members required (chosen target)
    → Answers table members required (resolve global target)
unfolding resolve
resolve-Answers table members required global target h c = go (is_current global target) refl h
  where
    go :
        (b : Bool)
        → is_current global target ≡ b
        → b ≡ true
        → Answers table members required
            (if b then ensures (some target) global else unresolved global)
    go true h k = (h, c)
    go false h k = ground (arith, k)

settle-Answers :
    (force_set : Proxy → Text → Proxy) (table : Table) (members : List Text)
    (required : Option Text) (global : Proxy) (choice : Choice)
    → global.selectable ≡ true
    → ((target : Text) → is_current (force_set global target) target ≡ true)
    → IsChoice table members required choice
    → Answers table members required (settle force_set global choice)
unfolding settle
settle-Answers force_set table members required global (refused error) s set c = c
settle-Answers force_set table members required global (chosen target) s set c =
    go (is_current global target) refl global.selectable s
  where
    go :
        (b : Bool)
        → is_current global target ≡ b
        → (selectable : Bool) → selectable ≡ true
        → Answers table members required (
            if b
            then resolve global target
            else if selectable
            then resolve (force_set global target) target
            else fails not_selectable)
    go true h selectable s = resolve-Answers table members required global target h c
    go false h true s =
        resolve-Answers table members required (force_set global target) target (set target) c
    go false h false s = ground (arith, s)

-- Where GLOBAL has members and can be set, and setting it is seen when it is read again: it ends
-- with DIRECT, if that is a member, or a member that is no group and leads through a proxy, the
-- required one if one is; and it is refused only when no member is such.
pub ensure_global_proxy_selected-Answers :
    (force_set : Proxy → Text → Proxy) (table : Table) (required : Option Text) (global : Proxy)
    (members : List Text)
    → find_proxy (text "GLOBAL") table ≡ some global
    → global.members ≡ some members
    → global.selectable ≡ true
    → ((target : Text) → is_current (force_set global target) target ≡ true)
    → Answers table members required (ensure_global_proxy_selected force_set table required)
unfolding ensure_global_proxy_selected ensure_found ensure_members
ensure_global_proxy_selected-Answers force_set table required global members f m s set =
    subst (λ found. Answers table members required (ensure_found force_set table required found))
      (sym f)
      (subst
        (λ ms. Answers table members required (ensure_members force_set table required global ms))
        (sym m)
        (settle-Answers force_set table members required global
          (choose_target table members global.current required) s set
          (choose_target-IsChoice table members global.current required)))
