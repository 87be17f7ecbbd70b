-- ===== src/Runtime/Routed/Groups.antt =====
-- Which backend `RoutedRuntime.Remove` hands each name to (pkg/runtime/routed.go).
use kiac.Base.{
  if◌then◌else◌, Eq, Text, ◌≡◌, refl, sym, ap, ◌∙◌, Bool, true, false, List, [], ◌∷◌, ◌++◌,
  append-nil, append_assoc, nat_eq, bool_eq, text_eq, pair_eq, int_eq,
}
use kiac.Runtime.Routed.{add_name, Backends, NameGroups, RoutedRuntime, backend_for, name_groups}
use kiac.Base.Dict.{get_or, get_or-put}

module _ (b : Backends) (r : RoutedRuntime b) where
  open b use {Handle}

  -- The names whose backend is `h`, in their order.
  pub names_of : Handle → List Text → List Text
  names_of h [] = []
  names_of h (n ∷ ns) =
      if Eq.beq b.handle_eq (backend_for b r n) h then n ∷ names_of h ns else names_of h ns

  add_name-get :
      (h : Handle) (n : Text) (g : NameGroups b)
      → get_or ⦃e = b.handle_eq⦄ h [] (add_name b r n g) ≡ (
          if Eq.beq b.handle_eq (backend_for b r n) h
          then get_or ⦃e = b.handle_eq⦄ h [] g ++ (n ∷ [])
          else get_or ⦃e = b.handle_eq⦄ h [] g)
  unfolding add_name
  add_name-get h n g =
      get_or-put ⦃e = b.handle_eq⦄ (backend_for b r n) h
        (get_or ⦃e = b.handle_eq⦄ (backend_for b r n) [] g ++ (n ∷ [])) [] g
      ∙ same (Eq.beq b.handle_eq (backend_for b r n) h)
          (Eq.beq_iff b.handle_eq (backend_for b r n) h).0
    where
      same :
          (x : Bool)
          → (x ≡ true → backend_for b r n ≡ h)
          → (if x
              then get_or ⦃e = b.handle_eq⦄ (backend_for b r n) [] g ++ (n ∷ [])
              else get_or ⦃e = b.handle_eq⦄ h [] g)
            ≡ (if x
                then get_or ⦃e = b.handle_eq⦄ h [] g ++ (n ∷ [])
                else get_or ⦃e = b.handle_eq⦄ h [] g)
      same true k = ap (λ (y : Handle). get_or ⦃e = b.handle_eq⦄ y [] g ++ (n ∷ [])) (k refl)
      same false k = refl

  groups_from :
      (h : Handle) (ns : List Text) (g : NameGroups b)
      → get_or ⦃e = b.handle_eq⦄ h [] (name_groups b r ns g)
        ≡ get_or ⦃e = b.handle_eq⦄ h [] g ++ names_of h ns
  unfolding name_groups names_of
  groups_from h [] g = sym (append-nil _)
  groups_from h (n ∷ ns) g =
      groups_from h ns (add_name b r n g)
      ∙ ap (λ (x : List Text). x ++ names_of h ns) (add_name-get h n g)
      ∙ moved (Eq.beq b.handle_eq (backend_for b r n) h) (get_or ⦃e = b.handle_eq⦄ h [] g)
    where
      moved :
          (x : Bool) (old : List Text)
          → (if x then old ++ (n ∷ []) else old) ++ names_of h ns
            ≡ old ++ (if x then n ∷ names_of h ns else names_of h ns)
      moved true old = append_assoc old (n ∷ []) (names_of h ns)
      moved false old = refl

  -- The group of a backend in `name_groups` is exactly the names that this backend has, in their
  -- order, and nothing for a backend that has none of them.
  pub name_groups-names_of :
      (h : Handle) (ns : List Text)
      → get_or ⦃e = b.handle_eq⦄ h [] (name_groups b r ns []) ≡ names_of h ns
  unfolding get_or
  name_groups-names_of h ns = groups_from h ns []
