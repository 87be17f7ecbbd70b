-- ===== src/Runtime/Mount/RoundTrip.antt =====
-- `Mount.String` and `ParseMount` (pkg/runtime/mount.go).
use kiac.Base.{
  if◌then◌else◌, Text, text, ok, ◌>>=◌, ℕ, ◌≡◌, refl, ap, ◌∙◌, ◌≢◌, Bool, true, false, List, [],
  ◌∷◌, ◌++◌, append-nil, text_beq,
}
use kiac.Runtime.Mount.{
  Mount, mount_text, no_mount, parse_mount, read_fields, complete, read_field, read_new, read_key,
  read_type, read_source, read_target, read_readonly, key_value,
}
use kiac.Go.Strings.{cut_byte, has_byte, split, trim_space}
use kiac.Go.Strings.Laws.{split-append, split_whole}

abbrev IsPlain : Text → Type 0
IsPlain s = (s ≢ []) × (has_byte b',' s ≡ false)

printed_fields : Mount → List Text
printed_fields m =
    text "type=bind"
    ∷ (text "source=" ++ m.source)
    ∷ (text "target=" ++ m.target)
    ∷ (if m.read_only then text "readonly" ∷ [] else [])

split_end :
    (target : Text) (b : Bool)
    → has_byte b',' target ≡ false
    → split (text "target=" ++ (target ++ (if b then text ",readonly" else []))) b','
      ≡ (text "target=" ++ target) ∷ (if b then text "readonly" ∷ [] else [])
unfolding has_byte
split_end target true h =
    split-append (text "target=" ++ target) (text "readonly") b',' h
    ∙ ap (λ (fs : List Text). (text "target=" ++ target) ∷ fs)
        (split_whole (text "readonly") b',' refl)
split_end target false h =
    ap (λ (x : Text). split (text "target=" ++ x) b',') (append-nil target)
    ∙ split_whole (text "target=" ++ target) b',' h

split-mount_text :
    (m : Mount)
    → has_byte b',' m.source ≡ false
    → has_byte b',' m.target ≡ false
    → split (mount_text m) b',' ≡ printed_fields m
unfolding mount_text printed_fields has_byte
split-mount_text m s t =
    split-append (text "type=bind") _ b',' refl
    ∙ ap (λ (fs : List Text). text "type=bind" ∷ fs)
        (split-append (text "source=" ++ m.source) _ b',' s
          ∙ ap (λ (fs : List Text). (text "source=" ++ m.source) ∷ fs)
              (split_end m.target m.read_only t))

read_printed :
    (c d : ℕ) (s t : Text) (b : Bool)
    → (read_fields
          (printed_fields (record { source = c ∷ s; target = d ∷ t; read_only = b }))
          (record { seen = []; mount = no_mount })
        >>= complete)
      ≡ ok (record { source = c ∷ s; target = d ∷ t; read_only = b })
unfolding printed_fields read_fields complete read_field read_new read_key read_type read_source
    read_target read_readonly key_value trim_space cut_byte text_beq
read_printed c d s t true = refl
read_printed c d s t false = refl

-- A mount whose source and target are not empty and have no comma is parsed again from the text
-- that it is printed as.
pub parse_mount-mount_text :
    (m : Mount)
    → m.source ≢ []
    → m.target ≢ []
    → has_byte b',' m.source ≡ false
    → has_byte b',' m.target ≡ false
    → parse_mount (mount_text m) ≡ ok m
unfolding parse_mount
parse_mount-mount_text m sn tn s t =
    ap (λ (fs : List Text). read_fields fs (record { seen = []; mount = no_mount }) >>= complete)
      (split-mount_text m s t)
    ∙ filled m.source m.target sn tn
  where
    filled :
        (x y : Text)
        → x ≢ []
        → y ≢ []
        → (read_fields
              (printed_fields (record { source = x; target = y; read_only = m.read_only }))
              (record { seen = []; mount = no_mount })
            >>= complete)
          ≡ ok (record { source = x; target = y; read_only = m.read_only })
    filled [] y p q = absurd (p refl)
    filled (c ∷ x) [] p q = absurd (q refl)
    filled (c ∷ x) (d ∷ y) p q = read_printed c d x y m.read_only
