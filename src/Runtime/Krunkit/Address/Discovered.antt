-- ===== src/Runtime/Krunkit/Address/Discovered.antt =====
-- The address that a machine is found at.
use kiac.Base.{
  ltb, if◌then◌else◌, Text, length, ok, err, guard, ◌≤◌, ◌≡◌, refl, ap, ◌≢◌, Bool, true, false, not,
  ◌||◌, Option, none, some, List, [], ◌∷◌, arith, subst, text_beq_iff, then-eq-ok, guard-eq-ok,
}
use kiac.Runtime.Krunkit.Address.{
  read_raw, decoded, GuestReport, ReportView, node_address, not_a_report_file,
  read_guest_address_report, read_guest_report_file, report_too_long, ReportFile, Decoder,
  first_valid, find_arp_address, guest_address_dir, is_own_report, other_report, validate_node_ipv4,
  not_a_directory,
}
use kiac.Runtime.Krunkit.Address.Valid.{
  IsNodeAddress, first_valid-IsNodeAddress, validate_node_ipv4-IsNodeAddress,
}
use kiac.Runtime.Krunkit.Network.{Networks}
use kiac.Runtime.Krunkit.Nodes.{NodeState, Places}
use kiac.Runtime.Krunkit.Mac.{normalize_mac}

-- What is required of a report: one value, at most 4096 bytes, of this machine and this boot.
pub record IsReported (decode : Decoder) (view : ReportView) (state : NodeState) (ip : Text)
    : Type 0 where
  pub raw : Text
  pub guest : GuestReport
  pub decodes : decode raw ≡ some (guest, true)
  pub short : length raw ≤ 4096
  pub name : guest.name ≡ state.name
  pub generation : guest.generation ≡ state.address_generation
  pub not_empty : state.address_generation ≢ []
  pub mac : normalize_mac guest.mac ≡ normalize_mac state.mac
  pub address : guest.ipv4 ≡ ip

read_raw-ok : (o : Option Text) (raw : Text) → read_raw o ≡ ok raw → length raw ≤ 4096
unfolding read_raw
read_raw-ok none raw h = absurd (cc)
read_raw-ok (some s) raw h = go (ltb 4096 (length s)) refl h
  where
    go :
        (b : Bool)
        → ltb 4096 (length s) ≡ b
        → (if b then err report_too_long else ok s) ≡ ok raw
        → length raw ≤ 4096
    go true e h = absurd (cc)
    go false e h =
        let same : s ≡ raw = cc in subst (λ (t : Text). length t ≤ 4096) same (ground arith)

read_guest_report_file-ok :
    (o : Option ReportFile) (raw : Text) → read_guest_report_file o ≡ ok raw → length raw ≤ 4096
unfolding read_guest_report_file
read_guest_report_file-ok none raw h = absurd (cc)
read_guest_report_file-ok (some f) raw h = go (not f.regular || ltb 4096 f.size) h
  where
    go :
        (b : Bool)
        → (if b then err not_a_report_file else read_raw f.raw) ≡ ok raw
        → length raw ≤ 4096
    go true h = absurd (cc)
    go false h = read_raw-ok f.raw raw h

decoded-ok :
    (o : Option (GuestReport × Bool)) (g : GuestReport) → decoded o ≡ ok g → o ≡ some (g, true)
unfolding decoded
decoded-ok none g h = absurd (cc)
decoded-ok (some (x, true)) g h =
    let same : x ≡ g = cc in ap (λ (y : GuestReport). some (y, true)) same
decoded-ok (some (x, false)) g h = absurd (cc)

module _ (decode : Decoder) (places : Places) (root : Bool) (networks : Networks) where
  read_guest_address_report-ok :
      (view : ReportView) (state : NodeState) (ip : Text)
      → read_guest_address_report decode places root networks view state ≡ ok ip
      → IsNodeAddress root networks state ip × IsReported decode view state ip
  unfolding read_guest_address_report is_own_report
  read_guest_address_report-ok view state ip h =
      let (dir, g1, k1) = then-eq-ok (guest_address_dir places state.name) _ h in
      let (_, g2, k2) = then-eq-ok (guard view.directory not_a_directory) _ k1 in
      let (raw, g3, k3) = then-eq-ok (read_guest_report_file view.file) _ k2 in
      let (g, g4, k4) = then-eq-ok (decoded (decode raw)) _ k3 in
      let (_, g5, k5) = then-eq-ok (guard (is_own_report state g) other_report) _ k4 in
      let (_, g6, k6) = then-eq-ok (validate_node_ipv4 root networks state g.ipv4) _ k5 in
      let same : g.ipv4 ≡ ip = cc in
      let own = guard-eq-ok _ other_report g5 in
      (
        subst (IsNodeAddress root networks state) same
            (validate_node_ipv4-IsNodeAddress root networks state g.ipv4 g6),
        record {
          raw = raw;
          guest = g;
          decodes = decoded-ok (decode raw) g g4;
          short = read_guest_report_file-ok view.file raw g3;
          name = ground (arith, text_beq_iff g.name state.name);
          generation = ground (arith, text_beq_iff g.generation state.address_generation);
          not_empty = ground (arith, text_beq_iff state.address_generation []);
          mac = ground (arith, text_beq_iff (normalize_mac g.mac) (normalize_mac state.mac));
          address = same;
        },
      )

  -- The address that `node_address` gives a machine is an IPv4 address of its own network, in the
  -- pool .2 to .200, and for a machine that reports its address it is the one of a report of this
  -- machine and this boot.
  pub node_address-IsNodeAddress :
      (view : ReportView) (arp : List (Text × Text)) (state : NodeState) (ip : Text)
      → node_address decode places root networks view arp state ≡ ok ip
      → IsNodeAddress root networks state ip
        × (state.guest_address_report ≡ true → IsReported decode view state ip)
  unfolding node_address
  node_address-IsNodeAddress view arp state ip h = go state.guest_address_report refl h
    where
      go :
          (b : Bool)
          → state.guest_address_report ≡ b
          → (if b
              then read_guest_address_report decode places root networks view state
              else first_valid decode places root networks state
                  (find_arp_address decode places root networks state.mac arp ∷ state.ip ∷ []))
            ≡ ok ip
          → IsNodeAddress root networks state ip
            × (state.guest_address_report ≡ true → IsReported decode view state ip)
      go true e h = let (a, b) = read_guest_address_report-ok view state ip h in (a, λ _. b)
      go false e h = (
        first_valid-IsNodeAddress root networks state decode places
            (find_arp_address decode places root networks state.mac arp ∷ state.ip ∷ []) ip h,
        λ t. absurd (cc),
      )
