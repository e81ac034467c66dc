-- ===== src/World/Names.antt =====
-- The packets with a character's name
-- (src/NECROWorld/Server/Sockets/WorldSession.cpp, `Handle_SPacketCreateNewChar` and
-- `Handle_SPacketDeleteCharacter`): which are accepted.
use mathlib.Core.Option
use necro_mmo.Common.{
  ℕ, ◌+◌, ◌-◌, ◌≤◌, ◌≡◌, refl, ap, true, not, ◌||◌, none, some, Option, List, length, take, drop,
  arith, Bool-cases, inl, inr, ◌==◌, ltb, length-drop, take_all,
}
use necro_mmo.Message as Message
use necro_mmo.Message.{active, active_size}
use necro_mmo.Message.Buffer.{active_size_lem}
use necro_mmo.Auth.Handlers.{all_alnum}
use necro_mmo.Auth.Served.{read_at_lem, slice_at_lem}
use necro_mmo.World.Handlers.{read_name}
use necro_mmo.World.Served.{number_at}

-- A well-formed packet: after `fixed` bytes it ends with a name of 1 to 12 letters and digits, which
-- it counts, and it declares its size without the first four bytes.
pub record Named (fixed : ℕ) (bytes name : List ℕ) : Type 0 where
  pub size : length bytes ≡ fixed + length name
  pub some_name : 1 ≤ length name
  pub short : length name ≤ 12
  pub declared : number_at 2 2 bytes + 4 ≡ length bytes
  pub counted : number_at 1 (fixed - 1) bytes ≡ length name
  pub letters : all_alnum name ≡ true
  pub last : name ≡ drop fixed bytes

abbrev pub Judged : ℕ → List ℕ → Option (List ℕ) → Type 0
Judged fixed bytes none = (name : List ℕ) → ¬ Named fixed bytes name
Judged fixed bytes (some name) = Named fixed bytes name

module _ (fixed : ℕ) (m : Message.Message) (v : Message.IsValid m) (enough : 5 ≤ fixed) where
  -- The tests, one after the other; none reads beyond the packet.
  pub read_name-Judged :
      (o : Option (List ℕ)) × (read_name fixed m ≡ some o) × Judged fixed (active m) o
  unfolding read_name Option.bind
  read_name-Judged =
      let bytes = active m in
      let size = active_size_lem m v in
      let n = number_at 1 (fixed - 1) bytes in
      let d = number_at 2 2 bytes in
      elim (Bool-cases (ltb (active_size m) fixed)) [
        | inl small ↦ (none, rw small, λ name h. ground (arith, h.size, size))
        | inr c1 ↦ elim (Bool-cases (ltb (fixed + 12) (active_size m))) [
          | inl large ↦ (none, rw (c1, large), λ name h. ground (arith, h.size, h.short, size))
          | inr c2 ↦
              let two = read_at_lem 2 2 bytes (ground (arith, size)) in
              elim (Bool-cases (ltb d (fixed - 4))) [
                | inl low ↦ (
                  none,
                  rw (c1, c2, two, low),
                  λ name h. ground (arith, h.size, h.declared, size),
                )
                | inr c3 ↦ elim (Bool-cases (ltb (fixed - 4 + 12) d)) [
                  | inl high ↦ (
                    none,
                    rw (c1, c2, two, c3, high),
                    λ name h. ground (arith, h.size, h.declared, h.short, size),
                  )
                  | inr c4 ↦
                      let one = read_at_lem 1 (fixed - 1) bytes (ground (arith, size)) in
                      elim (Bool-cases
                        (not (active_size m == fixed + n) || not (active_size m == d + 4))) [
                          | inl lie ↦ (
                            none,
                            rw (c1, c2, two, c3, c4, one, lie),
                            λ name h. ground (arith, h.size, h.declared, h.counted, size),
                          )
                          | inr c5 ↦ elim (Bool-cases (n == 0 || ltb 12 n)) [
                            | inl bad ↦ (
                              none,
                              rw (c1, c2, two, c3, c4, one, c5, bad),
                              λ name h. ground (arith, h.counted, h.some_name, h.short),
                            )
                            | inr c6 ↦
                                let fits : fixed + n ≡ length bytes = ground (arith, size) in
                                let here = slice_at_lem n fixed bytes (omega arith) in
                                let rest : take n (drop fixed bytes) ≡ drop fixed bytes =
                                  take_all n (drop fixed bytes)
                                    (omega (arith, length-drop fixed bytes)) in
                                elim (Bool-cases (not (all_alnum (take n (drop fixed bytes))))) [
                                  | inl odd ↦ (
                                    none,
                                    rw (c1, c2, two, c3, c4, one, c5, c6, here, odd),
                                    λ name h.
                                        cc (odd, ap all_alnum rest, ap all_alnum h.last, h.letters),
                                  )
                                  | inr fine ↦ (
                                    some (take n (drop fixed bytes)),
                                    rw (c1, c2, two, c3, c4, one, c5, c6, here, fine),
                                    rw rest (record {
                                      size = omega (arith, length-drop fixed bytes);
                                      some_name = ground (arith, length-drop fixed bytes);
                                      short = ground (arith, length-drop fixed bytes);
                                      declared = ground (arith, size);
                                      counted = omega (arith, length-drop fixed bytes);
                                      letters = ground (arith, ap all_alnum rest);
                                      last = refl;
                                    }),
                                  )
                                ]
                          ]
                        ]
                ]
              ]
        ]
      ]
