-- ===== src/Network/Telemetry/Normal.antt =====
-- Normalizing telemetry entries a second time.
use switch_manager.Base.{
  ◌≡◌, not, ◌||◌, [], Option, none, some, ok, fail_if, map_err, >>=-eq-ok, arith, ◌==◌, Bool-cases,
  inl, inr,
}
use switch_manager.Base.Text.{Text, trim_space}
use switch_manager.Base.Int.{pos, lt_int}
use switch_manager.Network.Addresses.{Netip, Lawful}
use switch_manager.Network.Interface.{validate_name_safety}
use switch_manager.Network.Telemetry.{
  Hardware, MacEntry, ArpEntry, ArpState, TelemetryError, or_fail, is_incomplete,
  arp_state_validate, normalize_mac, normalize_mac_entry, normalize_arp_mac, normalize_arp_entry,
  bad_mac, bad_address, not_ipv4, unusable_address, negative_age, in_interface,
}

-- What the documentation of net.HardwareAddr says of a text that was printed.
record LawfulHardware (hw : Hardware) : Type 1 where
  pub mac_round_trip :
      (s : Text) (m : hw.Mac)
      → hw.parse_mac s ≡ some m
      → hw.mac_len m ≡ 6
      → hw.parse_mac (hw.mac_text m) ≡ some m
  pub mac_trimmed : (m : hw.Mac) → trim_space (hw.mac_text m) ≡ hw.mac_text m

or_fail-some {ℓ} :
    {A : Type ℓ} (o : Option A) (e : TelemetryError) (a : A) → or_fail o e ≡ ok a → o ≡ some a
or_fail-some none e a h = ground (arith, h)
or_fail-some (some b) e a h = ground (arith, h)

module _ (hw : Hardware) (hardware : LawfulHardware hw) where
  normalize_mac-again : (s t : Text) → normalize_mac hw s ≡ ok t → normalize_mac hw t ≡ ok t
  unfolding normalize_mac
  normalize_mac-again s t h =
      let (m, parsed, h1) = >>=-eq-ok (or_fail (hw.parse_mac (trim_space s)) bad_mac) _ h in
      let (_, six, h2) = >>=-eq-ok (fail_if (not (hw.mac_len m == 6)) bad_mac) _ h1 in
      let is : t ≡ hw.mac_text m = ground (arith, h2) in
      let len : hw.mac_len m ≡ 6 = ground (arith, six) in
      let back =
        hardware.mac_round_trip (trim_space s) m
          (or_fail-some (hw.parse_mac (trim_space s)) bad_mac m parsed) len in
      rw is (ground (arith, back, len, hardware.mac_trimmed m))

  -- Normalizing a MAC entry a second time changes nothing.
  normalize_mac_entry-again :
      (v w : MacEntry) → normalize_mac_entry hw v ≡ ok w → normalize_mac_entry hw w ≡ ok w
  unfolding normalize_mac_entry
  normalize_mac_entry-again v w h =
      let (a, mac, h1) = >>=-eq-ok (normalize_mac hw v.mac_address) _ h in
      ground (arith, h, mac, normalize_mac-again v.mac_address a mac)

  normalize_arp_mac-again :
      (state : ArpState) (s t : Text)
      → normalize_arp_mac hw state s ≡ ok t
      → normalize_arp_mac hw state t ≡ ok t
  unfolding normalize_arp_mac trim_space
  normalize_arp_mac-again state s t h = elim (Bool-cases (is_incomplete state)) [
    | inl missing ↦ let is : t ≡ [] = ground (arith, h, missing) in rw is (ground (arith, missing))
    | inr given ↦ ground (arith, h, given, normalize_mac-again s t (ground (arith, h, given)))
  ]

  -- Normalizing an ARP entry a second time changes nothing.
  normalize_arp_entry-again :
      (n : Netip)
      → Lawful n
      → (v w : ArpEntry) → normalize_arp_entry hw n v ≡ ok w
      → normalize_arp_entry hw n w ≡ ok w
  unfolding normalize_arp_entry
  normalize_arp_entry-again n lawful v w h =
      let (a, parsed, h1) =
        >>=-eq-ok (or_fail (n.parse_addr (trim_space v.ip_address)) bad_address) _ h in
      let (_, four, h2) = >>=-eq-ok (fail_if (not (n.addr_is4 a)) not_ipv4) _ h1 in
      let (_, usable, h3) =
        >>=-eq-ok (fail_if (n.is_unspecified a || n.is_multicast a) unusable_address) _ h2 in
      let (_, named, h4) =
        >>=-eq-ok (map_err in_interface (validate_name_safety v.arp_interface)) _ h3 in
      let (_, known, h5) = >>=-eq-ok (arp_state_validate v.state) _ h4 in
      let (_, aged, h6) = >>=-eq-ok (fail_if (lt_int v.arp_age (pos 0)) negative_age) _ h5 in
      let (mac, kept, h7) = >>=-eq-ok (normalize_arp_mac hw v.state v.arp_mac) _ h6 in
      let is = or_fail-some (n.parse_addr (trim_space v.ip_address)) bad_address a parsed in
      let back = lawful.addr_round_trip (trim_space v.ip_address) a is in
      ground (
        arith,
        h7,
        back,
        lawful.addr_trimmed v.ip_address a is,
        four,
        usable,
        named,
        known,
        aged,
        normalize_arp_mac-again v.state v.arp_mac mac kept,
      )
