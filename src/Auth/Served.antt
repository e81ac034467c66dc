-- ===== src/Auth/Served.antt =====
-- Every handler of the login server on a whole packet and a valid session
-- (src/NECROAuth/Server/Auth/AuthSession.cpp).
pub mod Proof
pub mod Realms
pub mod Listing
use mathlib.Core.Option
use necro_mmo.Common.{
  ℕ, ◌+◌, ◌%◌, ◌^◌, ◌≤◌, ◌≡◌, refl, Bool, true, false, not, some, List, [], ◌∷◌, ◌++◌, length, take,
  drop, ◌==◌, ◌||◌, ltb, arith, Bool-cases, Option-cases, inl, inr, length-take, length-drop,
  le→leb,
}
use necro_mmo.Common.Bytes.{read_at, of_bytes}
use necro_mmo.Packet.{u8, u16, u32, raw, get_content}
use necro_mmo.Packet.Content.{write_fields-empty}
use necro_mmo.Message.{of_moved, active}
use necro_mmo.Auth.{
  AuthSession, login_attempt_pending, gather_realmlist_pending, credentials_check, rank,
}
use necro_mmo.Auth.Work.{verify_proof_of_work, verify_proof_of_work_lem}
use necro_mmo.Auth.Progress.{
  Sound, Handles, replied, replied-Flows, sent_with_lem, queue_packet-in_buffer, refused-Handled,
  identify-Handles,
}
use necro_mmo.Auth.Handlers.{
  Env, accepted, refused, thrown, all_alnum, slice_at, check_credentials, judge_work,
  send_realmlist, realm_fields, handle_auth_login_gather_info_packet,
  handle_auth_login_proof_packet, handle_gather_realmlist_packet,
}

pub read_at_lem :
    (k i : ℕ) (bytes : List ℕ)
    → i + k ≤ length bytes
    → read_at k i bytes ≡ some (of_bytes (take k (drop i bytes)))
unfolding read_at
read_at_lem k i bytes h = rw (le→leb (i + k) (length bytes) h)

pub slice_at_lem :
    (n i : ℕ) (bytes : List ℕ)
    → i + n ≤ length bytes
    → slice_at n i bytes ≡ some (take n (drop i bytes))
unfolding slice_at
slice_at_lem n i bytes h = rw (le→leb (i + n) (length bytes) h)

length-slice :
    (n i : ℕ) (bytes : List ℕ) → i + n ≤ length bytes → length (take n (drop i bytes)) ≡ n
length-slice n i bytes h = omega (arith, length-take n (drop i bytes), length-drop i bytes)

module _ (env : Env) (a : AuthSession) (s : Sound a) where
  abbrev bytes : List ℕ
  bytes = active a.socket.in_buffer

  -- The size that the packet declares.
  abbrev declared : ℕ
  declared = of_bytes (take 2 (drop 2 bytes))

  pub gather_info-Handles :
      rank a.status ≡ 1
      → 9 ≤ length bytes
      → (4 + declared) % 2 ^ 16 ≤ length bytes
      → Handles env.sha256 a (handle_auth_login_gather_info_packet env a)
  unfolding handle_auth_login_gather_info_packet Option.bind
  gather_info-Handles status enough whole =
      let b = record a { last_activity = env.now } in
      let n = of_bytes (take 1 (drop 7 bytes)) in
      let name = take n (drop 8 bytes) in
      let no = refused-Handled env a s in
      elim (Bool-cases (n == 0 || ltb 16 n)) [
        | inl bad ↦ (
          refused b,
          rw (read_at_lem 1 7 bytes (omega arith), handle_auth_login_gather_info_packet, bad),
          no,
        )
        | inr fine ↦ elim (Bool-cases (not (declared == 4 + n))) [
          | inl lie ↦ (
            refused b,
            rw (
              read_at_lem 1 7 bytes (omega arith),
              handle_auth_login_gather_info_packet,
              fine,
              read_at_lem 2 2 bytes (omega arith),
              lie,
            ),
            no,
          )
          | inr honest ↦
              let room : 8 + n ≤ length bytes = ground arith in
              let len = length-slice n 8 bytes room in
              elim (Bool-cases (not (all_alnum name))) [
                | inl odd ↦ (
                  refused b,
                  rw (
                    read_at_lem 1 7 bytes (omega arith),
                    handle_auth_login_gather_info_packet,
                    fine,
                    read_at_lem 2 2 bytes (omega arith),
                    honest,
                    slice_at_lem n 8 bytes room,
                    odd,
                  ),
                  no,
                )
                | inr good ↦
                    let (o, e, h) =
                      identify-Handles env a s name (of_bytes (take 1 (drop 4 bytes)))
                        (of_bytes (take 1 (drop 5 bytes))) (of_bytes (take 1 (drop 6 bytes))) status
                        (ground arith, ground (arith, len), ground (arith, len)) in
                    (
                      o,
                      rw
                          (
                            read_at_lem 1 7 bytes (omega arith),
                            handle_auth_login_gather_info_packet,
                            fine,
                            read_at_lem 2 2 bytes (omega arith),
                            honest,
                            slice_at_lem n 8 bytes room,
                            good,
                            read_at_lem 1 4 bytes (omega arith),
                            read_at_lem 1 5 bytes (omega arith),
                            read_at_lem 1 6 bytes (omega arith),
                          )
                          e,
                      h,
                    )
              ]
        ]
      ]
