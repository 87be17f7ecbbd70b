-- ===== src/Runtime/Routed/Inventory.antt =====
-- The inventory that `RoutedRuntime.List` merges (pkg/runtime/routed.go).
use kiac.Base.{
  ◌==◌, if◌then◌else◌, ◌===◌, Text, elem, count, Result, ok, err, suc, ◌+◌, ◌≤◌, ◌≡◌, refl, sym,
  Bool, true, false, Option, none, some, List, [], ◌∷◌, ◌++◌, map, arith, subst, text_beq_iff,
  count_absent, then-eq-ok, nat_eq, bool_eq, text_eq, pair_eq, int_eq,
}
use kiac.Runtime.Routed.{
  add_rows, with_backend, add_row, Backends, Info, Listing, RoutedError, two_backends, add_backend,
  start_listing, list_from, add_routes, listed, finish, RoutedRuntime, backend_container, failed,
  list, BackendRoute,
}

abbrev pub names : List Info → List Text
names = map (λ (i : Info). i.name)

-- No name twice.
abbrev pub Distinct : List Text → Type 0
Distinct xs = (a : Text) → count a xs ≤ 1

count-names_snoc :
    (a : Text) (xs : List Info) (w : Info)
    → count a (names (xs ++ w ∷ [])) ≡ count a (names xs) + (if a === w.name then 1 else 0)
count-names_snoc a [] w = ground arith
count-names_snoc a (x ∷ xs) w = ground (arith, count-names_snoc a xs w)

module _ (b : Backends) where
  open b use {Handle, State, Failure}

  -- `seen` has the names that were listed, each once.
  record IsMerged (l : Listing b) : Type 0 where
    distinct : Distinct (names l.infos)
    seen_all : (a : Text) → elem a l.seen ≡ false → count a (names l.infos) ≡ 0

  with_backend-name : (route : Text) (i : Info) → (with_backend b route i).name ≡ i.name
  unfolding with_backend
  with_backend-name route i = go (i.backend === [])
    where
      go : (x : Bool) → (if x then record i { backend = route } else i).name ≡ i.name
      go true = refl
      go false = refl

  names_labelled :
      (route : Text) (xs : List Info) → names (map (with_backend b route) xs) ≡ names xs
  names_labelled route [] = refl
  names_labelled route (i ∷ xs) = rw (with_backend-name route i, names_labelled route xs)

  added : Text → Info → Listing b → Listing b
  added route i l = record {
    infos = l.infos ++ (with_backend b route i ∷ []);
    alternate_rows = suc l.alternate_rows;
    seen = i.name ∷ l.seen;
  }

  added-IsMerged :
      (route : Text) (i : Info) (l : Listing b)
      → IsMerged l
      → elem i.name l.seen ≡ false
      → IsMerged (added route i l)
  unfolding added
  added-IsMerged route i l m e = record {
    distinct = λ a.
        let q = text_beq_iff a i.name in
        let z = m.seen_all i.name e in
        let y = m.distinct a in
        ground
          (arith, count-names_snoc a l.infos (with_backend b route i), with_backend-name route i);
    seen_all = λ a k. ground (
      arith,
      count-names_snoc a l.infos (with_backend b route i),
      with_backend-name route i,
      m.seen_all a,
      text_beq_iff a i.name,
    );
  }

  add_row-IsMerged :
      (route : Text) (i : Info) (l l' : Listing b)
      → IsMerged l
      → add_row b route i l ≡ ok l'
      → IsMerged l'
  unfolding add_row added
  add_row-IsMerged route i l l' m h = go (elem i.name l.seen) refl h
    where
      go :
          (x : Bool)
          → elem i.name l.seen ≡ x
          → ◌≡◌ {A = Result (RoutedError b) (Listing b)}
              (if x then err (two_backends i.name) else ok (added route i l))
              (ok l')
          → IsMerged l'
      go true e q = absurd (cc)
      go false e q =
          let same : ◌≡◌ {A = Listing b} (added route i l) l' = cc in
          subst IsMerged same (added-IsMerged route i l m e)

  add_rows-IsMerged :
      (route : Text) (rows : List Info) (l l' : Listing b)
      → IsMerged l
      → add_rows b route rows l ≡ ok l'
      → IsMerged l'
  unfolding add_rows
  add_rows-IsMerged route [] l l' m h =
      let same : ◌≡◌ {A = Listing b} l l' = cc in subst IsMerged same m
  add_rows-IsMerged route (i ∷ rows) l l' m h =
      let (k, e, h1) = then-eq-ok (add_row b route i l) _ h in
      add_rows-IsMerged route rows k l' (add_row-IsMerged route i l k m e) h1

  add_backend-IsMerged :
      (prefix : Text) (s : State) (route : Text) (o : Option Handle) (l l' : Listing b)
      → IsMerged l
      → add_backend b prefix s route o l ≡ ok l'
      → IsMerged l'
  unfolding add_backend listed
  add_backend-IsMerged prefix s route none l l' m h =
      let same : ◌≡◌ {A = Listing b} l l' = cc in subst IsMerged same m
  add_backend-IsMerged prefix s route (some k) l l' m h = go (b.list k prefix s) h
    where
      go : (p : List Info × Option Failure) → listed b route p l ≡ ok l' → IsMerged l'
      go (rows, some e) q = absurd (cc)
      go (rows, none) q = add_rows-IsMerged route rows l l' m q

  add_routes-IsMerged :
      (prefix : Text) (s : State) (routes : List (BackendRoute b)) (l l' : Listing b)
      → IsMerged l
      → add_routes b prefix s routes l ≡ ok l'
      → IsMerged l'
  unfolding add_routes
  add_routes-IsMerged prefix s [] l l' m h =
      let same : ◌≡◌ {A = Listing b} l l' = cc in subst IsMerged same m
  add_routes-IsMerged prefix s (r ∷ rs) l l' m h =
      let (k, e, h1) = then-eq-ok (add_backend b prefix s r.name r.backend l) _ h in
      add_routes-IsMerged prefix s rs k l' (add_backend-IsMerged prefix s r.name r.backend l k m e)
        h1

  start-IsMerged : (rows : List Info) → Distinct (names rows) → IsMerged (start_listing b rows)
  unfolding start_listing
  start-IsMerged rows d = record {
    distinct = λ a.
        subst (λ (x : List Text). count a x ≤ 1) (sym (names_labelled backend_container rows))
          (d a);
    seen_all = λ a e.
        subst (λ (x : List Text). count a x ≡ 0) (sym (names_labelled backend_container rows))
          (count_absent a (names rows) e);
  }

  finish_infos :
      (o : Option Failure) (l : Listing b) (infos : List Info)
      → finish b o l ≡ ok infos
      → l.infos ≡ infos
  unfolding finish
  finish_infos none l infos h = cc
  finish_infos (some e) l infos h = go (l.alternate_rows == 0) h
    where
      go :
          (x : Bool)
          → ◌≡◌ {A = Result (RoutedError b) (List Info)}
              (if x then err (failed e) else ok l.infos)
              (ok infos)
          → l.infos ≡ infos
      go true q = absurd (cc)
      go false q = cc

  -- If the primary runtime lists no name twice and the merged `list` succeeds, the merged list has
  -- no name twice.
  pub list-Distinct :
      (r : RoutedRuntime b) (prefix : Text) (s : State) (infos : List Info)
      → Distinct (names (b.list r.primary prefix s).0)
      → list b r prefix s ≡ ok infos
      → Distinct (names infos)
  unfolding list list_from
  list-Distinct r prefix s infos d h = go (b.list r.primary prefix s) d h
    where
      go :
          (p : List Info × Option Failure)
          → Distinct (names p.0)
          → list_from b prefix s r.routes p ≡ ok infos
          → Distinct (names infos)
      go (rows, o) d' q =
          let (l, e, k) = then-eq-ok (add_routes b prefix s r.routes (start_listing b rows)) _ q in
          subst (λ (x : List Info). Distinct (names x)) (finish_infos o l infos k)
            (IsMerged.distinct (
              add_routes-IsMerged prefix s r.routes (start_listing b rows) l
                (start-IsMerged rows d') e))
