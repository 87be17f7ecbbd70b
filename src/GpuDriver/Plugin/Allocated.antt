-- ===== src/GpuDriver/Plugin/Allocated.antt =====
-- When a container is given the GPU, and what it is given.
use kiac.Base.{
  if◌then◌else◌, ◌===◌, Text, length, All, In, Result, ok, err, ◌>>=◌, is_ok, ℕ, suc, ◌≡◌, refl, ap,
  ◌↔◌, ◌≢◌, ◌⊎◌, inl, inr, Bool, true, false, not, ◌&&◌, some, List, [], ◌∷◌, map, arith, subst,
  text_beq_iff, then-eq-ok, nat_eq, bool_eq, text_eq, pair_eq, int_eq,
}
use kiac.GpuDriver.Plugin.{
  card, allocate_all, one_device, container_response, or_unavailable, ContainerResponse,
  DevicePlugin, DeviceSpec, DeviceStat, allocate, device_name, paths, read_write,
  require_character_device, stat_device, wrong_device,
}
use kiac.GpuDriver.Health.{HealthMonitor, require_healthy, snapshot}
use kiac.GpuDriver.Health.Lease.{require_healthy-ok}

-- The render device, or the card where it is a device.
abbrev pub Granted : DeviceStat → DevicePlugin → Text → Type 0
Granted stat p path =
    (path ≡ p.render_device)
    ⊎ ((path ≡ p.optional_card) × (p.optional_card ≢ []) × (stat p.optional_card ≡ ok true))

module _ (stat : DeviceStat) (p : DevicePlugin) where
  require-ok : (path : Text) → require_character_device stat path ≡ ok tt → stat path ≡ ok true
  unfolding require_character_device
  require-ok path h = go (stat path) h
    where
      go : (o : Result Text Bool) → stat_device path o ≡ ok tt → o ≡ ok true
      go (err e) k = absurd (cc)
      go (ok true) k = refl
      go (ok false) k = absurd (cc)

  one_device-eq : (ids : List Text) → one_device ids ≡ true → ids ≡ device_name ∷ []
  unfolding one_device
  one_device-eq [] h = absurd (cc)
  one_device-eq (d ∷ []) h = ap (λ (x : Text). x ∷ []) ((text_beq_iff d device_name).0 h)
  one_device-eq (d ∷ e ∷ ds) h = absurd (cc)

  character_device :
      (path : Text) → stat path ≡ ok true → require_character_device stat path ≡ ok tt
  unfolding require_character_device
  character_device path h = rw h refl

  -- The card is granted where it is a device.
  HasCard : Text → Type 0
  HasCard x = (x ≡ p.optional_card) × (p.optional_card ≢ []) × (stat p.optional_card ≡ ok true)

  HasCard-card :
      (x : Text)
      → HasCard x
      → In x (map (λ (d : DeviceSpec). d.host_path) (card stat p.optional_card))
  unfolding card HasCard
  HasCard-card x (e, named, there) =
      let device = character_device p.optional_card there in
      let not_empty : (p.optional_card === []) ≡ false =
        ground (arith, text_beq_iff p.optional_card []) in
      rw not_empty (rw device (inl e))

  card-Granted :
      (x : Text)
      → In x (map (λ (d : DeviceSpec). d.host_path) (card stat p.optional_card))
      → Granted stat p x
  unfolding card
  card-Granted x i =
      go (p.optional_card === []) refl (require_character_device stat p.optional_card) refl i
    where
      go :
          (b : Bool)
          → (p.optional_card === []) ≡ b
          → (o : Result Text (Unit {0})) → require_character_device stat p.optional_card ≡ o
          → In x (
              map
                (λ (d : DeviceSpec). d.host_path)
                (if not b && is_ok o then read_write p.optional_card ∷ [] else []))
          → Granted stat p x
      go true e o q j = absurd j
      go false e (err m) q j = absurd j
      go false e (ok u) q (inl j) =
          inr (j, ground (arith, text_beq_iff p.optional_card []), require-ok p.optional_card q)
      go false e (ok u) q (inr j) = absurd j

  -- The paths that an answer has are those that are granted.
  abbrev pub GivesGranted : ContainerResponse → Type 0
  GivesGranted r = (x : Text) → In x (paths r) ↔ Granted stat p x

  container_response-GivesGranted : GivesGranted (container_response stat p)
  unfolding paths container_response HasCard
  container_response-GivesGranted x = (taken, given)
    where
      taken : In x (paths (container_response stat p)) → Granted stat p x
      taken (inl e) = inl e
      taken (inr i) = card-Granted x i

      given : Granted stat p x → In x (paths (container_response stat p))
      given (inl e) = inl e
      given (inr c) = inr (HasCard-card x c)

  allocate_all-ok :
      (requests : List (List Text)) (rs : List ContainerResponse)
      → allocate_all stat p requests ≡ ok rs
      → All (λ ids. ids ≡ device_name ∷ []) requests
        × (length rs ≡ length requests)
        × All GivesGranted rs
  unfolding allocate_all
  allocate_all-ok [] rs h =
      let same : ◌≡◌ {A = List ContainerResponse} [] rs = cc in
      subst
        (λ (x : List ContainerResponse).
          All (λ (ids : List Text). ids ≡ device_name ∷ []) []
          × (length x ≡ 0)
          × All GivesGranted x)
        same (tt, refl, tt)
  allocate_all-ok (ids ∷ requests) rs h = go (one_device ids) refl h (allocate_all-ok requests)
    where
      go :
          (b : Bool)
          → one_device ids ≡ b
          → (if not b
              then err wrong_device
              else (allocate_all stat p requests >>= λ xs. ok (container_response stat p ∷ xs)))
            ≡ ok rs
          → ((xs : List ContainerResponse)
              → allocate_all stat p requests ≡ ok xs
              → All (λ i. i ≡ device_name ∷ []) requests
                × (length xs ≡ length requests)
                × All GivesGranted xs)
          → All (λ i. i ≡ device_name ∷ []) (ids ∷ requests)
            × (length rs ≡ suc (length requests))
            × All GivesGranted rs
      go false e k rec = absurd (cc)
      go true e k rec =
          let (xs, q, same) = then-eq-ok (allocate_all stat p requests) _ k in
          let (all, counted, granted) = rec xs q in
          let new : ◌≡◌ {A = List ContainerResponse} (container_response stat p ∷ xs) rs = cc in
          subst
            (λ (x : List ContainerResponse).
              All (λ (i : List Text). i ≡ device_name ∷ []) (ids ∷ requests)
              × (length x ≡ suc (length requests))
              × All GivesGranted x)
            new
            ((one_device-eq ids e, all), ap suc counted, (container_response-GivesGranted, granted))

or_unavailable-ok :
    (r : Result Text (Unit {0})) {u : Unit {0}} → or_unavailable r ≡ ok u → r ≡ ok tt
unfolding or_unavailable
or_unavailable-ok (ok u) h = refl
or_unavailable-ok (err e) h = absurd (cc)

-- If `allocate` succeeds, the monitor is there and healthy at that time, the render device is a
-- character device, every container asked for the one device, there is one answer for each, and the
-- paths in each answer are exactly the render device and, where it is a character device, the card.
pub allocate-ok :
    (now : ℕ) (stat : DeviceStat) (p : DevicePlugin) (requests : List (List Text))
    (rs : List ContainerResponse)
    → allocate now stat p requests ≡ ok rs
    → ((m : HealthMonitor) × (p.health ≡ some m) × ((snapshot now m).healthy ≡ true))
      × (stat p.render_device ≡ ok true)
      × All (λ ids. ids ≡ device_name ∷ []) requests
      × (length rs ≡ length requests)
      × All (GivesGranted stat p) rs
unfolding allocate
allocate-ok now stat p requests rs h =
    let (_, e1, k1) = then-eq-ok (or_unavailable (require_healthy now p.health)) _ h in
    let (_, e2, k) =
      then-eq-ok (or_unavailable (require_character_device stat p.render_device)) _ k1 in
    let (all, same, granted) = allocate_all-ok stat p requests rs k in
    (
      require_healthy-ok now p.health (or_unavailable-ok _ e1),
      require-ok stat p p.render_device (or_unavailable-ok _ e2),
      all,
      same,
      granted,
    )
