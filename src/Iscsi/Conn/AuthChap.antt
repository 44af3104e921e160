-- ===== src/Iscsi/Conn/AuthChap.antt =====
-- The steps of CHAP: the functions of usr/iscsi/chap.c from
-- `chap_initiator_auth_create_challenge` on.
use mathlib.Core.List.{reverse}
use tgt.Base.{
  ℕ, zero, suc, ◌+◌, ◌-◌, ◌/◌, ◌%◌, not, Option, none, some, List, [], ◌∷◌, ltb, if◌then◌else◌,
  text, same_text,
}
use tgt.Iscsi.Keys.{text_key_add}
use tgt.Iscsi.Security.{values_of}
use tgt.Iscsi.Base64.{encode_base64_string}
use tgt.Iscsi.Chap.{
  Encoding, hex_format, base64_format, chap_check_encoding_format, decode_len, chap_decode_string,
}
use tgt.Iscsi.Conn.State.{
  Conn, auth_state_start, auth_state_challenge, auth_state_response, DigestAlg, digest_md5,
  digest_sha1, state_security_done, state_security_auth,
}
use tgt.Iscsi.Conn.Find.{text_key_find}
use tgt.Iscsi.Conn.Portal.{Portal, Chance}

-- 0 and CHAP_*_ERROR.
pub data AuthResult : Type 0 where
  auth_ok chap_initiator_error chap_auth_error chap_target_error : AuthResult

-- CHAP_*_DIGEST_LEN
abbrev pub digest_len : DigestAlg → ℕ
digest_len digest_md5 = 16
digest_len digest_sha1 = 20

abbrev pub hex_digit : ℕ → ℕ
hex_digit d = if ltb d 10 then b'0' + d else b'a' + (d - 10)

unfoldable pub encode_hex_string : List ℕ → List ℕ
encode_hex_string [] = []
encode_hex_string (b ∷ bs) = hex_digit (b / 16 % 16) ∷ hex_digit (b % 16) ∷ encode_hex_string bs

unfoldable pub chap_encode_string : Encoding → List ℕ → List ℕ
unfolding encode_hex_string encode_base64_string
chap_encode_string hex_format bytes = b'0' ∷ b'x' ∷ encode_hex_string bytes
chap_encode_string base64_format bytes = b'0' ∷ b'b' ∷ encode_base64_string bytes

-- A buffer after bytes were written to its start. What is written beyond it is not seen here.
unfoldable pub overlay : List ℕ → List ℕ → List ℕ
overlay bs [] = []
overlay [] (o ∷ os) = o ∷ os
overlay (b ∷ bs) (o ∷ os) = b ∷ overlay bs os

-- The first `n` bytes of new memory.
unfoldable pub fresh_buffer : ℕ → List ℕ → List ℕ
fresh_buffer zero stale = []
fresh_buffer (suc n) [] = 0 ∷ fresh_buffer n []
fresh_buffer (suc n) (b ∷ stale) = b ∷ fresh_buffer n stale

-- What `chap_decode_string` leaves in a new buffer. In hexadecimal it writes from the end on.
unfoldable pub decoded_buffer : Encoding → ℕ → List ℕ → List ℕ → List ℕ
unfolding overlay fresh_buffer
decoded_buffer hex_format n stale bytes = overlay (reverse bytes) (fresh_buffer n stale)
decoded_buffer base64_format n stale bytes = overlay bytes (fresh_buffer n stale)

-- The values of the key CHAP_A: the first algorithm that is known, as it was written.
unfoldable pub choose_alg : List (List ℕ) → Option (List ℕ × DigestAlg)
choose_alg [] = none
choose_alg (v ∷ vs) =
    if same_text v (text "5")
    then some (v, digest_md5)
    else if same_text v (text "7")
    then some (v, digest_sha1)
    else choose_alg vs

-- The bytes of the request are an argument of each step.
module _ (p : Portal) where
  abbrev pub add_key : List ℕ → List ℕ → Conn → Conn
  add_key key value c = record c { rsp = text_key_add p.grows c.rsp key value }

  -- The bytes of the challenge are what `rand` gives: 25 to 49 of them.
  unfoldable pub chap_initiator_auth_create_challenge : Chance → List ℕ → Conn → AuthResult × Conn
  unfolding choose_alg encode_hex_string
  chap_initiator_auth_create_challenge w bytes c = elim (text_key_find bytes (text "CHAP_A")) [
    | none ↦ (chap_initiator_error, c)
    | some offered ↦ elim (choose_alg (values_of offered)) [
      | none ↦ (chap_initiator_error, c)
      | some (value, alg) ↦
          let named = add_key (text "CHAP_I") (p.print ((w.last_id + 1) % 256)) (
            add_key (text "CHAP_A") value (record c {
              auth_state = auth_state_challenge;
              chap = record c.chap { digest_alg = some alg; id = w.last_id + 1 };
            })) in
          if not w.allocates then (chap_target_error, named) else (
            auth_ok,
            add_key (text "CHAP_C") (b'0' ∷ b'x' ∷ encode_hex_string w.random)
                (record named { chap = record named.chap { challenge = w.random } }),
          )
    ]
  ]

  -- The comparison of the two digests.
  unfoldable pub compare_digests :
      Chance → List ℕ → List ℕ → Encoding → DigestAlg → Conn → AuthResult
  unfolding decoded_buffer
  compare_digests w secret answer format alg c =
      elim (chap_decode_string answer (digest_len alg) format) [
        | none ↦ chap_initiator_error
        | some written ↦
            if same_text (p.calc_digest alg (c.chap.id % 256) secret c.chap.challenge)
              (decoded_buffer format (digest_len alg) w.stale written)
            then auth_ok
            else chap_auth_error
      ]

  -- What `chap_initiator_auth_check_response` returns.
  unfoldable pub check_response : Chance → List ℕ → Conn → AuthResult
  unfolding compare_digests
  check_response w bytes c =
      if not (p.available c.tid)
      then chap_target_error
      else elim (text_key_find bytes (text "CHAP_N")) [
        | none ↦ chap_initiator_error
        | some name ↦ elim (p.incoming c.tid name) [
          | none ↦ chap_auth_error
          | some secret ↦ elim (text_key_find bytes (text "CHAP_R")) [
            | none ↦ chap_initiator_error
            | some answer ↦ elim (chap_check_encoding_format answer) [
              | none ↦ chap_initiator_error
              | some format ↦ elim c.chap.digest_alg [
                | none ↦ chap_target_error
                | some alg ↦
                    if not w.allocates
                    then chap_target_error
                    else compare_digests w secret answer format alg c
              ]
            ]
          ]
        ]
      ]

  abbrev pub passed : AuthResult → Conn → Conn
  passed auth_ok c = record c { state = state_security_auth }
  passed chap_initiator_error c = c
  passed chap_auth_error c = c
  passed chap_target_error c = c

  -- On success the code writes CHAP_AUTH_STATE_RESPONSE, 2, to `conn->state`, where it stands for
  -- STATE_SECURITY_AUTH; `conn->auth_state` stays as it was.
  unfoldable pub chap_initiator_auth_check_response : Chance → List ℕ → Conn → AuthResult × Conn
  unfolding check_response
  chap_initiator_auth_check_response w bytes c =
      let res = check_response w bytes c in (res, passed res c)

  -- The initiator's challenge, from its text on: what is returned, with the digest and the format.
  unfoldable pub answer_challenge : Chance → ℕ → List ℕ → List ℕ → Conn → AuthResult × List ℕ
  unfolding decoded_buffer chap_encode_string
  answer_challenge w id secret value c = elim (chap_check_encoding_format value) [
    | none ↦ (chap_initiator_error, [])
    | some format ↦ elim (decode_len format value) [
      | none ↦ (chap_initiator_error, [])
      | some n ↦
          if not w.allocates
          then (chap_target_error, [])
          else if ltb 1024 n
          then (chap_initiator_error, [])
          else elim c.chap.digest_alg [
            | none ↦ (chap_target_error, [])
            | some alg ↦ elim (chap_decode_string value n format) [
              | none ↦ (chap_initiator_error, [])
              | some written ↦
                  let challenge = decoded_buffer format n w.stale written in
                  if same_text challenge c.chap.challenge
                  then (chap_initiator_error, [])
                  else (auth_ok, chap_encode_string format (p.calc_digest alg id secret challenge))
            ]
          ]
    ]
  ]

  abbrev pub answered : List ℕ → AuthResult × List ℕ → Conn → AuthResult × Conn
  answered name (auth_ok, response) c = (
    auth_ok,
    record (add_key (text "CHAP_R") response (add_key (text "CHAP_N") name c)) {
      state = state_security_done;
    },
  )
  answered name (chap_initiator_error, response) c = (chap_initiator_error, c)
  answered name (chap_auth_error, response) c = (chap_auth_error, c)
  answered name (chap_target_error, response) c = (chap_target_error, c)

  unfoldable pub chap_target_auth_create_response : Chance → List ℕ → Conn → AuthResult × Conn
  unfolding answer_challenge
  chap_target_auth_create_response w bytes c = elim (text_key_find bytes (text "CHAP_I")) [
    | none ↦ (auth_ok, record c { state = state_security_done })
    | some id ↦ elim (p.outgoing c.tid) [
      | none ↦ (chap_auth_error, c)
      | some (name, secret) ↦ elim (text_key_find bytes (text "CHAP_C")) [
        | none ↦ (chap_initiator_error, c)
        | some value ↦ answered name (answer_challenge w (p.decimal id % 256) secret value c) c
      ]
    ]
  ]

  abbrev pub then_respond : Chance → List ℕ → AuthResult × Conn → AuthResult × Conn
  then_respond w bytes (auth_ok, c) = chap_target_auth_create_response w bytes c
  then_respond w bytes (chap_initiator_error, c) = (chap_initiator_error, c)
  then_respond w bytes (chap_auth_error, c) = (chap_auth_error, c)
  then_respond w bytes (chap_target_error, c) = (chap_target_error, c)

  unfoldable pub cmnd_exec_auth_chap : Chance → List ℕ → Conn → AuthResult × Conn
  unfolding chap_initiator_auth_create_challenge chap_initiator_auth_check_response
      chap_target_auth_create_response
  cmnd_exec_auth_chap w bytes c = elim c.auth_state [
    | auth_state_start ↦ chap_initiator_auth_create_challenge w bytes c
    | auth_state_challenge ↦ then_respond w bytes (chap_initiator_auth_check_response w bytes c)
    | auth_state_response ↦ chap_target_auth_create_response w bytes c
  ]
