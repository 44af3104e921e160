-- ===== src/Iscsi/Conn/TextPadded.antt =====
-- The padding of a PDU and the rest of the text behind it, usr/iscsi/iscsid.c.
use tgt.Base.{
  ℕ, zero, suc, ◌+◌, ◌-◌, ◌%◌, ◌≡◌, ◌≢◌, ◌<◌, ◌∙◌, refl, sym, ap, arith, true, false, List, [], ◌∷◌,
  length, leb, ltb, get_or, replicate, ◌==◌, ◌&&◌,
}
use tgt.Iscsi.Conn.State.{Conn, Request}
use tgt.Iscsi.Conn.Portal.{Portal}
use tgt.Iscsi.Conn.Text.{
  reserved_tag, first_bytes, bytes_after, max_text, send_text, cmnd_exec_text, overwritten,
  data_padding, pad_bytes, tx_init_data,
}
use tgt.Iscsi.Conn.TextWhole.{
  ask_on, cmnd_exec_text-goes_on, not_final, bytes_after-length, first_bytes-full,
}

length-overwritten :
    (i : ℕ) (bs : List ℕ) (from : ℕ) (ts : List ℕ) → length (overwritten i bs from ts) ≡ length ts
unfolding overwritten
length-overwritten i bs from [] = refl
length-overwritten i bs from (t ∷ ts) = omega (arith, length-overwritten i bs (from + 1) ts)

-- A write that begins where the text begins sets its first byte.
overwritten-first :
    (i : ℕ) (bs ts : List ℕ)
    → 0 < length bs
    → 0 < length ts
    → get_or (overwritten i bs i ts) 0 1 ≡ get_or bs 0 0
unfolding overwritten
overwritten-first i bs [] h g = absurd (omega (arith, g))
overwritten-first i bs (t ∷ ts) h g =
    let hit : (leb i i && ltb i (i + length bs)) ≡ true = ground (arith, h) in
    rw hit (ap (λ k. get_or bs k 0) (omega arith))

first_bytes-first : (n : ℕ) (ts : List ℕ) → 0 < n → get_or (first_bytes n ts) 0 1 ≡ get_or ts 0 1
unfolding first_bytes
first_bytes-first zero ts h = absurd (omega (arith, h))
first_bytes-first (suc n) [] h = refl
first_bytes-first (suc n) (t ∷ ts) h = refl

zeros-first : (n : ℕ) → get_or (replicate {A = ℕ} n 0) 0 0 ≡ 0
zeros-first zero = refl
zeros-first (suc n) = refl

length-zeros : (n : ℕ) → length (replicate {A = ℕ} n 0) ≡ n
length-zeros zero = refl
length-zeros (suc n) = omega (arith, length-zeros n)

-- Over TCP, where MaxXmitDataSegmentLength is no multiple of 4: a text that needs a further PDU is
-- sent with 0 as the first byte of that PDU, whatever the byte of the text is.
pub cmnd_exec_text-overwritten :
    (p : Portal) (req : Request) (c : Conn)
    → c.tp_rdma ≡ false
    → 0 < max_text c
    → (max_text c % 4 == 0) ≡ false
    → max_text c < length c.text_rsp
    → c.ttt ≢ reserved_tag
    → get_or
        (cmnd_exec_text p (ask_on p req (send_text c)) (tx_init_data (send_text c))).rsp.rsp_data
        0
        1
      ≡ 0
unfolding send_text tx_init_data
cmnd_exec_text-overwritten p req c tcp room odd long tagged =
    ap (λ d. get_or d.rsp.rsp_data 0 1)
      (cmnd_exec_text-goes_on p req (tx_init_data (send_text c)) tag left)
    ∙ first_bytes-first (max_text c) (tx_init_data (send_text c)).text_rsp room
    ∙ overwritten-first (c.text_at + size) pads (bytes_after (max_text c) c.text_rsp) some_pads
        some_left
    ∙ ap (λ bs. get_or bs 0 0) padded
    ∙ zeros-first (4 - size % 4)
  where
    size : ℕ
    size = length (first_bytes (max_text c) c.text_rsp)

    pads : List ℕ
    pads = pad_bytes size (data_padding c)

    rest : length (bytes_after (max_text c) c.text_rsp) ≡ length c.text_rsp - max_text c
    rest = bytes_after-length (max_text c) c.text_rsp

    full : size ≡ max_text c
    full = first_bytes-full (max_text c) c.text_rsp (omega (arith, long))

    padded : pads ≡ replicate (4 - size % 4) 0
    padded =
        let uneven : (size % 4 == 0) ≡ false = ap (λ n. n % 4 == 0) full ∙ odd in
        rw tcp (rw uneven refl)

    some_pads : 0 < length pads
    some_pads = omega (arith, ap length padded, length-zeros (4 - size % 4))

    some_left : 0 < length (bytes_after (max_text c) c.text_rsp)
    some_left = omega (arith, rest, long)

    left : 0 < length (tx_init_data (send_text c)).text_rsp
    left = omega (
      arith,
      some_left,
      length-overwritten (c.text_at + size) pads (c.text_at + size)
          (bytes_after (max_text c) c.text_rsp),
    )

    tag : (tx_init_data (send_text c)).ttt ≢ reserved_tag
    tag e = tagged (sym (not_final p c (ground (arith, long))).1 ∙ e)
