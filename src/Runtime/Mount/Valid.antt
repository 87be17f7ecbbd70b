-- ===== src/Runtime/Mount/Valid.antt =====
-- What `validate_mounts` accepts.
use kiac.Base.{
  Text, All, elem, ok, guard, ◌≡◌, ◌↔◌, Bool, true, false, not, ◌||◌, Option, none, some, List, [],
  ◌∷◌, map, arith, then-eq-ok, guard-eq-ok, nat_eq, bool_eq, text_eq, pair_eq, int_eq,
}
use kiac.Runtime.Mount.{
  Mount, Stat, clean_absolute, is_abs, check_mount, has_newline, check_stat, check_mounts, commas,
  duplicate_target, newlines, relative_source, relative_target, validate_mounts,
}
use kiac.Go.Strings.{has_byte}

-- One mount that can be handed to Apple's `container`.
pub record IsValid (stat : Stat) (m : Mount) : Type 0 where
  pub source_line : has_newline m.source ≡ false
  pub target_line : has_newline m.target ≡ false
  pub source_abs : is_abs m.source ≡ true
  pub target_abs : is_abs m.target ≡ true
  pub source_plain : has_byte b',' m.source ≡ false
  pub target_plain : has_byte b',' m.target ≡ false
  pub directory : stat m.source ≡ some true

check_stat-ok : (o : Option Bool) → (check_stat o ≡ ok tt) ↔ (o ≡ some true)
unfolding check_stat
check_stat-ok none = ground arith
check_stat-ok (some true) = ground arith
check_stat-ok (some false) = ground arith

check_mount-IsValid :
    (stat : Stat) (targets : List Text) (m : Mount)
    → check_mount stat targets m ≡ ok tt
    → IsValid stat m × (elem (clean_absolute m.target) targets ≡ false)
unfolding check_mount
check_mount-IsValid stat targets m h =
    let (_, h1, k1) =
      then-eq-ok (guard (not (has_newline m.source || has_newline m.target)) newlines) _ h in
    let (_, h2, k2) = then-eq-ok (guard (is_abs m.source) relative_source) _ k1 in
    let (_, h3, k3) =
      then-eq-ok (guard (not (has_byte b',' m.source || has_byte b',' m.target)) commas) _ k2 in
    let (_, h4, k4) = then-eq-ok (check_stat (stat m.source)) _ k3 in
    let (_, h5, k5) = then-eq-ok (guard (is_abs m.target) relative_target) _ k4 in
    let lines = guard-eq-ok _ newlines h1 in
    let plain = guard-eq-ok _ commas h3 in
    (
      record {
        source_line = ground arith;
        target_line = ground arith;
        source_abs = guard-eq-ok _ relative_source h2;
        target_abs = guard-eq-ok _ relative_target h5;
        source_plain = ground arith;
        target_plain = ground arith;
        directory = (check_stat-ok (stat m.source)).0 h4;
      },
      (let fresh = guard-eq-ok _ duplicate_target k5 in ground arith),
    )

IsValid-check_mount :
    (stat : Stat) (targets : List Text) (m : Mount)
    → IsValid stat m
    → elem (clean_absolute m.target) targets ≡ false
    → check_mount stat targets m ≡ ok tt
unfolding check_mount check_stat
IsValid-check_mount stat targets m v h = simp (
  v.source_line, v.target_line, v.source_abs, v.target_abs, v.source_plain, v.target_plain,
  v.directory, h,
)

-- No element is among those before it.
pub Fresh : List Text → List Text → Type 0
Fresh before [] = Unit
Fresh before (x ∷ xs) = (elem x before ≡ false) × Fresh (x ∷ before) xs

pub check_mounts-ok :
    (stat : Stat) (targets : List Text) (ms : List Mount)
    → (check_mounts stat targets ms ≡ ok tt)
      ↔ (All (IsValid stat) ms × Fresh targets (map (λ (m : Mount). clean_absolute m.target) ms))
unfolding check_mounts Fresh
check_mounts-ok stat targets [] = ground arith
check_mounts-ok stat targets (m ∷ ms) = (
  λ h.
      let (_, e, k) = then-eq-ok (check_mount stat targets m) _ h in
      let (v, fresh) = check_mount-IsValid stat targets m e in
      let (vs, rest) = (check_mounts-ok stat (clean_absolute m.target ∷ targets) ms).0 k in
      ((v, vs), (fresh, rest)),
  λ p. simp (
    IsValid-check_mount stat targets m p.0.0 p.1.0,
    (check_mounts-ok stat (clean_absolute m.target ∷ targets) ms).1 (p.0.1, p.1.1),
  ),
)

-- `validate_mounts` accepts exactly the lists of mounts that are valid one by one and whose
-- targets, once cleaned, are different: absolute paths with no comma or newline, the source a
-- directory.
pub validate_mounts-ok :
    (stat : Stat) (ms : List Mount)
    → (validate_mounts stat ms ≡ ok tt)
      ↔ (All (IsValid stat) ms × Fresh [] (map (λ (m : Mount). clean_absolute m.target) ms))
unfolding validate_mounts
validate_mounts-ok stat ms = check_mounts-ok stat [] ms
