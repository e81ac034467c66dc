-- ===== src/Auth/Served/Listing.antt =====
-- The realm list on the wire (src/NECROAuth/Server/Auth/AuthSession.cpp,
-- `HandleGatherRealmlistPacket`).
use necro_mmo.Common.{
  ℕ, ◌+◌, ◌*◌, ◌%◌, ◌^◌, ◌≤◌, ◌≡◌, Option, some, List, [], ◌∷◌, ◌++◌, length, ltb, arith,
  Bool-cases, Option-cases, inl, inr, length-append,
}
use necro_mmo.Common.Bytes.{to_bytes}
use necro_mmo.Packet.{Field, u8, u16, u32, raw, string_field, encode}
use necro_mmo.Packet.Content.{encode_all}
use necro_mmo.Auth.Handlers.{Realm, realm_fields, htons}

-- One realm with a name of at most 32 bytes takes at most 44.
length-realm :
    (r : Realm) (address : List ℕ) (fields : List Field)
    → length address ≡ 4
    → length r.name ≤ 32
    → length (
        encode_all (
          u32 r.id
          ∷ u8 r.status
          ∷ raw address
          ∷ u16 (htons r.port)
          ∷ u8 (length r.name)
          ∷ string_field r.name
          ∷ fields))
      ≤ 44 + length (encode_all fields)
unfolding encode
length-realm r address fields four short = omega (
  arith,
  four,
  short,
  length-append address
      (to_bytes 2 (htons r.port) ++ (to_bytes 1 (length r.name) ++ (r.name ++ encode_all fields))),
  length-append r.name (encode_all fields),
)

module _ (parse_ip : List ℕ → Option (List ℕ))
    (four_bytes : (ip address : List ℕ) → parse_ip ip ≡ some address → length address ≡ 4) where
  realm_fields-from :
      (rs : List Realm) (count : ℕ)
      → count ≤ 33
      → let (fields, total) = realm_fields parse_ip rs count in
        (total ≤ 33) × (count ≤ total) × (length (encode_all fields) + 44 * count ≤ 44 * total)
  unfolding realm_fields
  realm_fields-from [] count h = (h, omega arith, omega arith)
  realm_fields-from (r ∷ rs) count h =
      let skipped = realm_fields-from rs count h in
      elim (Bool-cases (ltb 32 count)) [
        | inl many ↦ rw (realm_fields, many) (h, omega arith, omega arith)
        | inr few ↦ elim (Option-cases (parse_ip r.ip)) [
          | inl bad ↦ rw (realm_fields, few, bad) skipped
          | inr (address, parsed) ↦ elim (Bool-cases (ltb 32 (length r.name))) [
            | inl long ↦ rw (realm_fields, few, parsed, long) skipped
            | inr short ↦
                let (below, more, size) = realm_fields-from rs (count + 1) (ground arith) in
                let one =
                  length-realm r address (realm_fields parse_ip rs (count + 1)).0
                    (four_bytes r.ip address parsed) (ground arith) in
                rw (realm_fields, few, parsed, short)
                  (below, omega (arith, more), omega (arith, size, one))
          ]
        ]
      ]

  -- The realm list holds at most 33 realms, however many the server knows and whatever their names
  -- and addresses are, and takes at most 44 bytes for each that it counts, so that the size field of
  -- the packet, a `uint16_t`, holds the real size.
  pub realm_fields-length :
      (rs : List Realm)
      → let (fields, total) = realm_fields parse_ip rs 0 in
        (total ≤ 33)
        × (length (encode_all fields) ≤ 44 * total)
        × ((4 + length (encode_all fields)) % 2 ^ 16 ≡ 4 + length (encode_all fields))
  realm_fields-length rs =
      let (below, _, size) = realm_fields-from rs 0 (omega arith) in
      (below, omega (arith, size), omega (arith, below, size))
