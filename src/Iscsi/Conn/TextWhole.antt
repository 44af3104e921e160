-- ===== src/Iscsi/Conn/TextWhole.antt =====
-- A text that needs more than one PDU in usr/iscsi/iscsid.c.
use tgt.Base.{
  ℕ, zero, suc, ◌+◌, ◌%◌, ◌&&◌, ◌-◌, ◌*◌, ◌≡◌, ◌≢◌, ◌≤◌, ◌<◌, ◌∙◌, inl, inr, refl, sym, ap, arith,
  Bool, true, false, List, [], ◌∷◌, ◌++◌, length, leb, ltb, ◌==◌, Bool-cases, if◌then◌else◌,
}
use tgt.Iscsi.Conn.State.{Conn, Request}
use tgt.Iscsi.Conn.Portal.{Portal}
use tgt.Iscsi.Conn.Text.{
  reserved_tag, first_bytes, bytes_after, keep_text, text_scan_text, max_text, send_text,
  take_cmd_sn, clear_header, cmnd_exec_text, next_tag, overwritten, data_padding, pad_bytes,
  tx_init_data,
}

first_bytes-rest : (n : ℕ) (bs : List ℕ) → first_bytes n bs ++ bytes_after n bs ≡ bs
unfolding first_bytes bytes_after
first_bytes-rest zero bs = refl
first_bytes-rest (suc n) [] = refl
first_bytes-rest (suc n) (b ∷ bs) = ap (λ r. b ∷ r) (first_bytes-rest n bs)

first_bytes-short : (n : ℕ) (bs : List ℕ) → length (first_bytes n bs) ≤ n
unfolding first_bytes
first_bytes-short zero bs = omega arith
first_bytes-short (suc n) [] = omega arith
first_bytes-short (suc n) (b ∷ bs) = omega (arith, first_bytes-short n bs)

pub bytes_after-length : (n : ℕ) (bs : List ℕ) → length (bytes_after n bs) ≡ length bs - n
unfolding bytes_after
bytes_after-length zero bs = omega arith
bytes_after-length (suc n) [] = omega arith
bytes_after-length (suc n) (b ∷ bs) = omega (arith, bytes_after-length n bs)

bytes_after-all : (n : ℕ) (bs : List ℕ) → length bs ≤ n → bytes_after n bs ≡ []
unfolding bytes_after
bytes_after-all zero [] h = refl
bytes_after-all zero (b ∷ bs) h = absurd (omega (arith, h))
bytes_after-all (suc n) [] h = refl
bytes_after-all (suc n) (b ∷ bs) h = bytes_after-all n bs (omega (arith, h))

first_bytes-all : (n : ℕ) (bs : List ℕ) → length bs ≤ n → first_bytes n bs ≡ bs
unfolding first_bytes
first_bytes-all zero [] h = refl
first_bytes-all zero (b ∷ bs) h = absurd (omega (arith, h))
first_bytes-all (suc n) [] h = refl
first_bytes-all (suc n) (b ∷ bs) h = ap (λ r. b ∷ r) (first_bytes-all n bs (omega (arith, h)))

-- Where the data need no padding, nothing is written.

overwritten-nothing : (i from : ℕ) (ts : List ℕ) → overwritten i [] from ts ≡ ts
unfolding overwritten
overwritten-nothing i from [] = refl
overwritten-nothing i from (t ∷ ts) =
    let out : (leb i from && ltb from (i + length {A = ℕ} [])) ≡ false = ground arith in
    rw (out, overwritten-nothing i (from + 1) ts) refl

no_padding : (c : Conn) (size : ℕ) → size % 4 ≡ 0 → pad_bytes size (data_padding c) ≡ []
no_padding c size h =
    let whole : (size % data_padding c == 0) ≡ true = elim (Bool-cases c.tp_rdma) [
      | inl e ↦ rw e (ground arith)
      | inr e ↦ rw e (ground (arith, h))
    ] in
    rw whole refl

tx_init_data-aligned : (c : Conn) → length c.rsp.rsp_data % 4 ≡ 0 → tx_init_data c ≡ c
unfolding tx_init_data
tx_init_data-aligned c h =
    let end = c.rsp_at + length c.rsp.rsp_data in
    ap (λ bs. record c { text_rsp = overwritten end bs c.text_at c.text_rsp })
      (no_padding c (length c.rsp.rsp_data) h)
    ∙ ap (λ ts. record c { text_rsp = ts }) (overwritten-nothing end c.text_at c.text_rsp)

pub first_bytes-full : (n : ℕ) (bs : List ℕ) → n ≤ length bs → length (first_bytes n bs) ≡ n
unfolding first_bytes
first_bytes-full zero bs h = refl
first_bytes-full (suc n) [] h = absurd (omega (arith, h))
first_bytes-full (suc n) (b ∷ bs) h = omega (arith, first_bytes-full n bs (omega (arith, h)))

next_tag-free : (t : ℕ) → next_tag t ≢ reserved_tag
next_tag-free t e = ground (arith, e)

-- An initiator that asks for the rest with the tag that it was given, each time a response was
-- sent, until the flag ISCSI_FLAG_CMD_FINAL: the data of all the responses, with whether the last had the flag.
module _ (p : Portal) where
  abbrev pub ask_on : Request → Conn → Request
  ask_on req c = record req { req_ttt = c.ttt }

  unfoldable pub ask_all : ℕ → Request → Conn → List ℕ × Bool
  unfolding cmnd_exec_text
  ask_all zero req c = (c.rsp.rsp_data, c.rsp_flags == 128)
  ask_all (suc fuel) req c =
      let (more, final) = ask_all fuel req (cmnd_exec_text p (ask_on req c) (tx_init_data c)) in
      if c.rsp_flags == 128 then (c.rsp.rsp_data, true) else (c.rsp.rsp_data ++ more, final)

  -- The text was longer than a PDU, and a tag was given.
  pub cmnd_exec_text-goes_on :
      (req : Request) (c : Conn)
      → c.ttt ≢ reserved_tag
      → 0 < length c.text_rsp
      → cmnd_exec_text p (ask_on req c) c ≡ send_text (take_cmd_sn req (clear_header c))
  unfolding cmnd_exec_text
  cmnd_exec_text-goes_on req c tagged more = ground (arith, tagged, more)

  ask_all-final :
      (fuel : ℕ) (req : Request) (c : Conn)
      → (c.rsp_flags == 128) ≡ true
      → ask_all fuel req c ≡ (c.rsp.rsp_data, true)
  unfolding ask_all
  ask_all-final zero req c e = ap (λ b. (c.rsp.rsp_data, b)) e
  ask_all-final (suc fuel) req c e = rw (e, ask_all) refl

  last_pdu :
      (fuel : ℕ) (req : Request) (c : Conn)
      → leb (length c.text_rsp) (max_text c) ≡ true
      → ask_all fuel req (send_text c) ≡ (c.text_rsp, true)
  unfolding send_text
  last_pdu fuel req c e =
      let short : length c.text_rsp ≤ max_text c = ground (arith, e) in
      ask_all-final fuel req (send_text c) (rw (e, send_text) refl)
      ∙ ap (λ bs. (bs, true)) (first_bytes-all (max_text c) c.text_rsp short)

  -- One PDU more, and the rest.
  ask_all-more :
      (fuel : ℕ) (req : Request) (c : Conn)
      → (c.rsp_flags == 128) ≡ false
      → (rest : List ℕ)
      → ask_all fuel req (cmnd_exec_text p (ask_on req c) (tx_init_data c)) ≡ (rest, true)
      → ask_all (suc fuel) req c ≡ (c.rsp.rsp_data ++ rest, true)
  unfolding ask_all
  ask_all-more fuel req c e rest h = rw (e, ask_all) (rw h refl)

  pub not_final :
      (c : Conn)
      → leb (length c.text_rsp) (max_text c) ≡ false
      → ((send_text c).rsp_flags ≡ 0) × ((send_text c).ttt ≡ c.ttt)
  unfolding send_text
  not_final c e = (rw (e, send_text) refl, rw (e, send_text) refl)

  chunks :
      (fuel : ℕ) (req : Request) (c : Conn)
      → 0 < max_text c
      → max_text c % 4 ≡ 0
      → c.ttt ≢ reserved_tag
      → length c.text_rsp ≤ suc fuel * max_text c
      → ask_all fuel req (send_text c) ≡ (c.text_rsp, true)
  unfolding send_text
  chunks zero req c room even tagged h =
      let all : leb (length c.text_rsp) (max_text c) ≡ true = ground (arith, h) in
      last_pdu zero req c all
  chunks (suc fuel) req c room even tagged h =
      elim (Bool-cases (leb (length c.text_rsp) (max_text c))) [
        | inl all ↦ last_pdu (suc fuel) req c all
        | inr more ↦
            let rest = bytes_after-length (max_text c) c.text_rsp in
            let k = not_final c more in
            let long : max_text c < length c.text_rsp = ground (arith, more) in
            let tag : (send_text c).ttt ≢ reserved_tag = (λ e. tagged (sym k.1 ∙ e)) in
            let left : length (send_text c).text_rsp ≤ suc fuel * max_text c =
              omega (arith, rest, h) in
            let some_left : 0 < length (send_text c).text_rsp = omega (arith, rest, long) in
            let later : ask_all fuel req
                  (send_text (take_cmd_sn (ask_on req (send_text c)) (clear_header (send_text c))))
                ≡ ((send_text c).text_rsp, true) =
              chunks fuel req (take_cmd_sn (ask_on req (send_text c)) (clear_header (send_text c)))
                room even tag left in
            let full : length (first_bytes (max_text c) c.text_rsp) % 4 ≡ 0 =
              omega (arith, even, first_bytes-full (max_text c) c.text_rsp (omega (arith, long))) in
            ask_all-more fuel req (send_text c) (rw k.0 refl) (bytes_after (max_text c) c.text_rsp)
              (ap (λ d. ask_all fuel req (cmnd_exec_text p (ask_on req (send_text c)) d))
                  (tx_init_data-aligned (send_text c) full)
                ∙ ap (ask_all fuel req) (cmnd_exec_text-goes_on req (send_text c) tag some_left)
                ∙ later)
            ∙ ap (λ bs. (bs, true)) (first_bytes-rest (max_text c) c.text_rsp)
      ]

  -- The text that a request asks for.
  abbrev pub whole_text : Request → Conn → Conn
  whole_text req c =
      text_scan_text p req (record (take_cmd_sn req (clear_header c)) { text_rsp = [] })

  exec_first :
      (req : Request) (c : Conn)
      → req.req_ttt ≡ reserved_tag
      → cmnd_exec_text p req c ≡ send_text (keep_text p (whole_text req c))
  unfolding cmnd_exec_text
  exec_first req c first =
      let e : (req.req_ttt == reserved_tag) ≡ true = rw first refl in rw (e, cmnd_exec_text) refl

  kept_whole :
      (fuel : ℕ) (req : Request) (c : Conn)
      → 0 < max_text c
      → max_text c % 4 ≡ 0
      → length c.rsp.rsp_data ≤ suc fuel * max_text c
      → ask_all fuel req (send_text (keep_text p c)) ≡ (c.rsp.rsp_data, true)
  kept_whole fuel req c room even h = elim (Bool-cases (ltb (max_text c) (length c.rsp.rsp_data))) [
    | inl long ↦
        let tagged : (keep_text p c).ttt ≢ reserved_tag =
          (λ e. next_tag-free c.ttt (rw long at e)) in
        chunks fuel req (keep_text p c) room even tagged h
    | inr short ↦
        let all : leb (length c.rsp.rsp_data) (max_text c) ≡ true = ground (arith, short) in
        last_pdu fuel req (keep_text p c) all
  ]

  -- Where MaxXmitDataSegmentLength is a positive multiple of 4, a text is sent as a whole: the
  -- initiator that asks for the rest with the tag that it was given, until the final flag, and
  -- sends nothing else meanwhile, has received all the bytes that `text_scan_text` wrote, and the
  -- flag, after as many requests as the text's length takes PDUs of MaxXmitDataSegmentLength bytes.
  pub cmnd_exec_text-whole :
      (fuel : ℕ) (req : Request) (c : Conn)
      → req.req_ttt ≡ reserved_tag
      → 0 < max_text (whole_text req c)
      → max_text (whole_text req c) % 4 ≡ 0
      → length (whole_text req c).rsp.rsp_data ≤ suc fuel * max_text (whole_text req c)
      → ask_all fuel req (cmnd_exec_text p req c) ≡ ((whole_text req c).rsp.rsp_data, true)
  cmnd_exec_text-whole fuel req c first room even h =
      ap (ask_all fuel req) (exec_first req c first)
      ∙ kept_whole fuel req (whole_text req c) room even h
