-- ===== src/Runtime/Krunkit/Listing/Sorted.antt =====
-- What `List` lists (pkg/runtime/krunkit.go).
use kiac.Base.{
  if◌then◌else◌, Text, Result, ok, ◌≡◌, refl, ap, ◌∙◌, Bool, true, false, List, [], ◌∷◌, arith,
  subst,
}
use kiac.Base.Exec.{◌>>=◌, >>=-eq-ok}
use mathlib.Core.List.{Permᴰ}
use mathlib.Core.List.Permᴰ
use kiac.Runtime.Routed.{Info}
use kiac.Runtime.Krunkit.Address.{Decoder}
use kiac.Runtime.Krunkit.Listing.{
  save_changed, ListRun, info_of, insert_info, list_entries, list_entry, list_machines, list_owned,
  sort_infos, text_less, try_save,
}
use kiac.Runtime.Krunkit.World.{
  check, Machine, MachineError, World, load_state, not_listed, store_not_locked,
}
use kiac.Runtime.Krunkit.Nodes.{NodeState, Places}
use kiac.Runtime.Krunkit.Remove.{entry_names}
use kiac.Go.Strings.{has_prefix}
use kiac.Runtime.Krunkit.World.Steps.{load_state-ok, check-same}
use kiac.Runtime.Krunkit.Process.{process_owned}
use kiac.Runtime.Krunkit.Process.Keeps.{process_owned-keeps}
use kiac.Runtime.Krunkit.Nodes.Reads.{read_state-ok}

-- The first info, if there is one, does not come before a name.
IsBefore : Text → List Info → Type 0
IsBefore name [] = Unit {0}
IsBefore name (i ∷ is) = text_less i.name name ≡ false

unfoldable pub IsSorted : List Info → Type 0
unfolding IsBefore
IsSorted [] = Unit {0}
IsSorted (i ∷ is) = IsBefore i.name is × IsSorted is

text_less-asym : (s t : Text) → text_less s t ≡ true → text_less t s ≡ false
unfolding text_less
text_less-asym s [] h = absurd (cc)
text_less-asym [] (y ∷ t) h = refl
text_less-asym (x ∷ s) (y ∷ t) h = let rest = text_less-asym s t in grind arith

insert_info-IsBefore :
    (name : Text) (i : Info) (is : List Info)
    → text_less i.name name ≡ false
    → IsBefore name is
    → IsBefore name (insert_info i is)
unfolding IsBefore insert_info
insert_info-IsBefore name i [] e b = e
insert_info-IsBefore name i (j ∷ js) e b = go (text_less i.name j.name)
  where
    go : (c : Bool) → IsBefore name (if c then i ∷ j ∷ js else j ∷ insert_info i js)
    go true = e
    go false = b

insert_info-IsSorted : (i : Info) (is : List Info) → IsSorted is → IsSorted (insert_info i is)
unfolding IsBefore IsSorted insert_info
insert_info-IsSorted i [] s = (tt, tt)
insert_info-IsSorted i (j ∷ js) (b, s) =
    go (text_less i.name j.name) refl (insert_info-IsSorted i js s)
  where
    go :
        (c : Bool)
        → text_less i.name j.name ≡ c
        → IsSorted (insert_info i js)
        → IsSorted (if c then i ∷ j ∷ js else j ∷ insert_info i js)
    go true e rest = (text_less-asym i.name j.name e, (b, s))
    go false e rest = (insert_info-IsBefore j.name i js e b, rest)

sort_infos-IsSorted : (is : List Info) → IsSorted (sort_infos is)
unfolding IsSorted sort_infos
sort_infos-IsSorted [] = tt
sort_infos-IsSorted (i ∷ is) = insert_info-IsSorted i (sort_infos is) (sort_infos-IsSorted is)

insert_info-Perm : (i : Info) (is : List Info) → Permᴰ (i ∷ is) (insert_info i is)
unfolding insert_info
insert_info-Perm i [] = Permᴰ.refl (i ∷ [])
insert_info-Perm i (j ∷ js) = go (text_less i.name j.name) (insert_info-Perm i js)
  where
    go :
        (c : Bool)
        → Permᴰ (i ∷ js) (insert_info i js)
        → Permᴰ (i ∷ j ∷ js) (if c then i ∷ j ∷ js else j ∷ insert_info i js)
    go true rest = Permᴰ.refl (i ∷ j ∷ js)
    go false rest = Permᴰ.trans (Permᴰ.swap refl refl) (Permᴰ.cons refl rest)

sort_infos-Perm : (is : List Info) → Permᴰ is (sort_infos is)
unfolding sort_infos
sort_infos-Perm [] = Permᴰ.nil
sort_infos-Perm (i ∷ is) =
    Permᴰ.trans (Permᴰ.cons refl (sort_infos-Perm is)) (insert_info-Perm i (sort_infos is))

-- The names that begin with a prefix.
abbrev pub with_prefix : Text → List Text → List Text
with_prefix prefix [] = []
with_prefix prefix (name ∷ names) =
    if has_prefix prefix name then name ∷ with_prefix prefix names else with_prefix prefix names

abbrev pub info_names : List Info → List Text
info_names [] = []
info_names (i ∷ is) = i.name ∷ info_names is

module _ (hash : Text → Text) (decode : Decoder) (places : Places) (run : ListRun) where
  list_owned-name :
      (before : NodeState) (p : Bool × NodeState) (w v : World) (i : Info)
      → list_owned hash decode places run before p w ≡ (ok i, v)
      → i.name ≡ p.1.name
  unfolding list_owned save_changed try_save info_of
  list_owned-name before (owned, s) w v i h = let (u, t, first, rest) = >>=-eq-ok _ _ w h in cc

  list_entry-name :
      (name : Text) (w v : World) (i : Info)
      → list_entry hash decode places run name w ≡ (ok i, v)
      → i.name ≡ name
  unfolding list_entry
  list_entry-name name w v i h =
      let (s, u, first, rest) = >>=-eq-ok (load_state name) _ w h in
      let (_, same, _) = read_state-ok w.nodes name s (load_state-ok name w u s first) in
      list_owned-name s (process_owned hash places (run.look name) s) u v i rest
      ∙ process_owned-keeps hash places NodeState.name (λ t a b. refl) (run.look name) s
      ∙ same

  list_entries-names :
      (prefix : Text) (names : List Text) (w v : World) (is : List Info)
      → list_entries hash decode places run prefix names w ≡ (ok is, v)
      → info_names is ≡ with_prefix prefix names
  unfolding list_entries
  list_entries-names prefix [] w v is h = cc
  list_entries-names prefix (name ∷ names) w v is h =
      go (has_prefix prefix name) (list_entries-names prefix names) h
    where
      next : Machine (List Info)
      next = list_entries hash decode places run prefix names

      go :
          (b : Bool)
          → ((w v : World) (is : List Info)
              → next w ≡ (ok is, v)
              → info_names is ≡ with_prefix prefix names)
          → (if◌then◌else◌ {A = Result MachineError (List Info) × World} b
              ((list_entry hash decode places run name >>= λ i.
                  next >>= λ is. λ v. (ok (i ∷ is), v))
                w)
              (next w))
            ≡ (ok is, v)
          → info_names is
            ≡ (if b then name ∷ with_prefix prefix names else with_prefix prefix names)
      go false rest e = rest w v is e
      go true rest e =
          let (i, u, first, later) = >>=-eq-ok (list_entry hash decode places run name) _ w e in
          let (js, t, second, last) = >>=-eq-ok next _ u later in
          let a = list_entry-name name w u i first in
          let b = rest u t js second in
          let same : i ∷ js ≡ is = cc in
          subst (λ (l : List Info). info_names l ≡ name ∷ with_prefix prefix names) same
            (pair_of a b)
        where
          pair_of : {x y : Text} {xs ys : List Text} → x ≡ y → xs ≡ ys → x ∷ xs ≡ y ∷ ys
          pair_of a b = cc

  check-ok :
      (b : Bool) (e : MachineError) (w v : World) (u : Unit {0}) → check b e w ≡ (ok u, v) → v ≡ w
  check-ok b e w v u h = let same = check-same b e w in cc

  -- If `list_machines` succeeds, its infos are in the order of their names, and these are, but for
  -- their order, the names of the directories that begin with the prefix.
  pub list_machines-IsSorted :
      (prefix : Text) (w v : World) (is : List Info)
      → list_machines hash decode places run prefix w ≡ (ok is, v)
      → IsSorted is
        × (js : List Info) × (info_names js ≡ with_prefix prefix (entry_names w.nodes))
        × Permᴰ js is
  unfolding list_machines check
  list_machines-IsSorted prefix w v is h =
      let (_, w1, first, h1) = >>=-eq-ok (check run.locked store_not_locked) _ w h in
      let (_, w2, second, h2) = >>=-eq-ok (check run.listed not_listed) _ w1 h1 in
      let (js, t, entries, last) =
        >>=-eq-ok (list_entries hash decode places run prefix (entry_names w2.nodes)) _ w2 h2 in
      let sorted : sort_infos js ≡ is = cc in
      let same : w2 ≡ w =
        check-ok run.listed not_listed w1 w2 _ second
        ∙ check-ok run.locked store_not_locked w w1 _ first in
      (
        subst IsSorted sorted (sort_infos-IsSorted js),
        js,
        list_entries-names prefix (entry_names w2.nodes) w2 t js entries
            ∙ ap (λ (u : World). with_prefix prefix (entry_names u.nodes)) same,
        subst (Permᴰ js) sorted (sort_infos-Perm js),
      )
