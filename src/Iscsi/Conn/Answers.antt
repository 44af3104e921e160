-- ===== src/Iscsi/Conn/Answers.antt =====
-- The right answer to a challenge of usr/iscsi/chap.c.
use tgt.Base.{
  ℕ, ◌%◌, ◌≡◌, inl, inr, true, some, List, arith, text, same_text, Bool-cases, Option-cases,
}
use tgt.Iscsi.Chap.{Encoding, chap_check_encoding_format, chap_decode_string}
use tgt.Iscsi.Conn.State.{Conn, DigestAlg, Request}
use tgt.Iscsi.Conn.Find.{text_key_find}
use tgt.Iscsi.Conn.Portal.{Portal, Chance}
use tgt.Iscsi.Conn.AuthChap.{auth_ok, digest_len, decoded_buffer, compare_digests, check_response}

-- The request answers the connection's challenge: it names an account of the target, and its
-- response is the digest of the challenge with the account's password.
pub record Answers (p : Portal) (w : Chance) (req : Request) (c : Conn) : Type 0 where
  pub name : List ℕ
  pub secret : List ℕ
  pub answer : List ℕ
  pub format : Encoding
  pub alg : DigestAlg
  pub written : List ℕ
  pub named : text_key_find req.req_data (text "CHAP_N") ≡ some name
  pub known : p.incoming c.tid name ≡ some secret
  pub given : text_key_find req.req_data (text "CHAP_R") ≡ some answer
  pub coded : chap_check_encoding_format answer ≡ some format
  pub chosen : c.chap.digest_alg ≡ some alg
  pub decoded : chap_decode_string answer (digest_len alg) format ≡ some written
  pub right :
      same_text
        (p.calc_digest alg (c.chap.id % 256) secret c.chap.challenge)
        (decoded_buffer format (digest_len alg) w.stale written)
      ≡ true

module _ (p : Portal) where
  answer_given :
      (w : Chance) (req : Request) (c : Conn)
      → check_response p w req.req_data c ≡ auth_ok
      → p.available c.tid ≡ true
      → (name secret answer : List ℕ) → text_key_find req.req_data (text "CHAP_N") ≡ some name
      → p.incoming c.tid name ≡ some secret
      → text_key_find req.req_data (text "CHAP_R") ≡ some answer
      → Answers p w req c
  unfolding check_response compare_digests
  answer_given w req c h asked name secret answer named known given =
      elim (Option-cases (chap_check_encoding_format answer)) [
        | inl e ↦ absurd (ground (arith, h, asked, named, known, given, e))
        | inr (format, coded) ↦ elim (Option-cases c.chap.digest_alg) [
          | inl e ↦ absurd (ground (arith, h, asked, named, known, given, coded, e))
          | inr (alg, chosen) ↦ elim (Bool-cases w.allocates) [
            | inr e ↦ absurd (ground (arith, h, asked, named, known, given, coded, chosen, e))
            | inl memory ↦ elim (Option-cases (chap_decode_string answer (digest_len alg) format)) [
              | inl e ↦
                  absurd (ground (arith, h, asked, named, known, given, coded, chosen, memory, e))
              | inr (written, decoded) ↦ record {
                name = name;
                secret = secret;
                answer = answer;
                format = format;
                alg = alg;
                written = written;
                named = named;
                known = known;
                given = given;
                coded = coded;
                chosen = chosen;
                decoded = decoded;
                right =
                    ground (arith, h, asked, named, known, given, coded, chosen, memory, decoded);
              }
            ]
          ]
        ]
      ]

  pub check_response-Answers :
      (w : Chance) (req : Request) (c : Conn)
      → check_response p w req.req_data c ≡ auth_ok
      → Answers p w req c
  unfolding check_response compare_digests
  check_response-Answers w req c h = elim (Bool-cases (p.available c.tid)) [
    | inr e ↦ absurd (ground (arith, h, e))
    | inl asked ↦ elim (Option-cases (text_key_find req.req_data (text "CHAP_N"))) [
      | inl e ↦ absurd (ground (arith, h, asked, e))
      | inr (name, named) ↦ elim (Option-cases (p.incoming c.tid name)) [
        | inl e ↦ absurd (ground (arith, h, asked, named, e))
        | inr (secret, known) ↦ elim (Option-cases (text_key_find req.req_data (text "CHAP_R"))) [
          | inl e ↦ absurd (ground (arith, h, asked, named, known, e))
          | inr (answer, given) ↦ answer_given w req c h asked name secret answer named known given
        ]
      ]
    ]
  ]
