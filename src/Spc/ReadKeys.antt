-- ===== src/Spc/ReadKeys.antt =====
-- What an initiator reads in the answer to READ KEYS, usr/spc.c.
use tgt.Base.{
  ℕ, zero, suc, ◌+◌, ◌-◌, ◌*◌, ◌^◌, ◌≡◌, ◌<◌, ◌≤◌, ◌∙◌, refl, ap, arith, true, false, some, List,
  [], ◌∷◌, leb, min, length, map, All, Buffer, u32, get_unaligned_be32, get_unaligned_be64,
  put_unaligned_be16, put_unaligned_be32, store_bytes, be64_bytes, store_bytes-before,
  get_unaligned_be64-agree, get_unaligned_be64-store_bytes, get_unaligned_be32-bytes,
  get_unaligned_be32-agree,
}
use tgt.Scsi.Cmd.{resid_by_actual, set_in_resid_by_actual}
use tgt.Scsi.Ranges.{get_unaligned_be16_lt}
use tgt.Scsi.Codes
use tgt.Scsi.Lu.{Registration, Env}
use tgt.Spc.In.{Copy, spc_memcpy, copy_keys, alloc_len, is_short, keys_from, spc_pr_read_keys}

-- `n` keys from an offset on, as an initiator reads them.
unfoldable pub read_back : ℕ → ℕ → Buffer → List ℕ
read_back zero i p = []
read_back (suc n) i p = get_unaligned_be64 p i ∷ read_back n (i + 8) p

-- There is room for the keys, and the counters do not wrap.
record Fits (n : ℕ) (c : Copy) : Type 0 where
  room : n * 8 ≤ c.remain_len
  no_wrap : c.actual_len + c.remain_len < 2 ^ 32
  together : c.avail_len ≡ c.actual_len

-- One key.
abbrev after_key : ℕ → Copy → Copy
after_key k c = record {
  copied = store_bytes c.copied c.actual_len (be64_bytes k);
  remain_len = c.remain_len - 8;
  actual_len = c.actual_len + 8;
  avail_len = c.actual_len + 8;
}

spc_memcpy-key : (n k : ℕ) (c : Copy) → Fits (suc n) c → spc_memcpy (be64_bytes k) c ≡ after_key k c
unfolding spc_memcpy
spc_memcpy-key n k c f =
    let whole : min c.remain_len 8 ≡ 8 = omega (arith, f.room) in
    let small : u32 (c.actual_len + 8) ≡ c.actual_len + 8 = omega (arith, f.room, f.no_wrap) in
    rw (whole, f.together) (rw small refl)

after_key-Fits : (n k : ℕ) (c : Copy) → Fits (suc n) c → Fits n (after_key k c)
after_key-Fits n k c f = record {
  room = omega (arith, f.room);
  no_wrap = omega (arith, f.room, f.no_wrap);
  together = refl;
}

copy_keys-step :
    (reg : Registration) (regs : List Registration) (c : Copy)
    → Fits (suc (length regs)) c
    → copy_keys (reg ∷ regs) c ≡ copy_keys regs (after_key reg.key c)
unfolding copy_keys
copy_keys-step reg regs c f = ap (copy_keys regs) (spc_memcpy-key (length regs) reg.key c f)

-- The bytes before those of the keys are not written.
copy_keys-before :
    (regs : List Registration) (c : Copy) (j : ℕ)
    → Fits (length regs) c
    → j < c.actual_len
    → (copy_keys regs c).copied j ≡ c.copied j
unfolding copy_keys
copy_keys-before [] c j f h = refl
copy_keys-before (reg ∷ regs) c j f h =
    ap (λ d. d.copied j) (copy_keys-step reg regs c f)
    ∙ copy_keys-before regs (after_key reg.key c) j (after_key-Fits (length regs) reg.key c f)
        (omega (arith, h))
    ∙ store_bytes-before c.copied c.actual_len (be64_bytes reg.key) j h

copy_keys-read_back :
    (regs : List Registration) (c : Copy)
    → Fits (length regs) c
    → All (λ r. r.key < 2 ^ 64) regs
    → read_back (length regs) c.actual_len (copy_keys regs c).copied ≡ map (λ r. r.key) regs
unfolding copy_keys read_back
copy_keys-read_back [] c f small = refl
copy_keys-read_back (reg ∷ regs) c f small =
    let next = after_key-Fits (length regs) reg.key c f in
    let first : get_unaligned_be64 (copy_keys regs (after_key reg.key c)).copied c.actual_len
        ≡ reg.key =
      get_unaligned_be64-agree (copy_keys regs (after_key reg.key c)).copied
        (after_key reg.key c).copied c.actual_len
        (λ j a b. copy_keys-before regs (after_key reg.key c) j next b)
      ∙ get_unaligned_be64-store_bytes c.copied c.actual_len reg.key small.0 in
    ap (λ d. read_back (suc (length regs)) c.actual_len d.copied) (copy_keys-step reg regs c f)
    ∙ rw (first, copy_keys-read_back regs (after_key reg.key c) next small.1) refl

copy_keys-lengths :
    (regs : List Registration) (c : Copy)
    → Fits (length regs) c
    → ((copy_keys regs c).avail_len ≡ c.actual_len + length regs * 8)
      × ((copy_keys regs c).actual_len ≡ c.actual_len + length regs * 8)
unfolding copy_keys
copy_keys-lengths [] c f = (omega (arith, f.together), omega arith)
copy_keys-lengths (reg ∷ regs) c f =
    let rest =
      copy_keys-lengths regs (after_key reg.key c) (after_key-Fits (length regs) reg.key c f) in
    let step = copy_keys-step reg regs c f in
    (
      ap (λ d. d.avail_len) step ∙ (rest.0 ∙ omega arith),
      ap (λ d. d.actual_len) step ∙ (rest.1 ∙ omega arith),
    )

read_back-agree :
    (n i : ℕ) (p q : Buffer) → ((j : ℕ) → i ≤ j → p j ≡ q j) → read_back n i p ≡ read_back n i q
unfolding read_back
read_back-agree zero i p q h = refl
read_back-agree (suc n) i p q h =
    rw
      (
        get_unaligned_be64-agree p q i (λ j a b. h j a),
        read_back-agree n (i + 8) p q (λ j a. h j (omega (arith, a))),
      )
      refl

-- A field that is written where it stands, and the bytes after it.
put_unaligned_be32-get :
    (v i : ℕ) (p : Buffer) → v < 2 ^ 32 → get_unaligned_be32 (put_unaligned_be32 v p i) i ≡ v
unfolding put_unaligned_be32 put_unaligned_be16
put_unaligned_be32-get v i p h =
    get_unaligned_be32-bytes (put_unaligned_be32 v p i) i v (ground arith) (ground arith)
      (ground arith) (ground arith)
    ∙ omega (arith, h)

put_unaligned_be32-before :
    (v i : ℕ) (p : Buffer) (j : ℕ) → j < i → put_unaligned_be32 v p i j ≡ p j
unfolding put_unaligned_be32 put_unaligned_be16
put_unaligned_be32-before v i p j h = ground (arith, h)

put_unaligned_be32-after :
    (v i : ℕ) (p : Buffer) (j : ℕ) → i + 4 ≤ j → put_unaligned_be32 v p i j ≡ p j
unfolding put_unaligned_be32 put_unaligned_be16
put_unaligned_be32-after v i p j h = ground (arith, h)

keys_from-Fits :
    (env : Env)
    → 8 ≤ alloc_len env
    → length env.dev.registration_list * 8 + 8 ≤ alloc_len env
    → alloc_len env < 2 ^ 32
    → Fits (length env.dev.registration_list) (record {
      copied = put_unaligned_be32 env.dev.prgeneration env.cmd.in_sdb.buffer 0;
      remain_len = alloc_len env - 8;
      actual_len = 8;
      avail_len = 8;
    })
keys_from-Fits env h room small = record {
  room = omega (arith, room);
  no_wrap = omega (arith, h, small);
  together = refl;
}

-- The answer's parameter list, as an initiator reads it: the generation, the length and the keys.
pub record Reports (env : Env) (p : Buffer) : Type 0 where
  pub generation : get_unaligned_be32 p 0 ≡ env.dev.prgeneration
  pub additional : get_unaligned_be32 p 4 ≡ length env.dev.registration_list * 8
  pub keys :
      read_back (length env.dev.registration_list) 8 p ≡ map (λ r. r.key) env.dev.registration_list

module _ (env : Env) where
  filled-Reports :
      8 ≤ alloc_len env
      → length env.dev.registration_list * 8 + 8 ≤ alloc_len env
      → alloc_len env < 2 ^ 16
      → All (λ r. r.key < 2 ^ 64) env.dev.registration_list
      → env.dev.prgeneration < 2 ^ 32
      → Reports env (
          put_unaligned_be32
            (u32 ((keys_from env).avail_len + (2 ^ 32 - 8)))
            (keys_from env).copied
            4)
  unfolding keys_from
  filled-Reports h room small keyed generation =
      let regs = env.dev.registration_list in
      let f = keys_from-Fits env h room (omega (arith, small)) in
      let start : Copy = record {
        copied = put_unaligned_be32 env.dev.prgeneration env.cmd.in_sdb.buffer 0;
        remain_len = alloc_len env - 8;
        actual_len = 8;
        avail_len = 8;
      } in
      let lengths = copy_keys-lengths regs start f in
      let additional : u32 ((copy_keys regs start).avail_len + (2 ^ 32 - 8)) ≡ length regs * 8 =
        omega (arith, lengths.0, room, small) in
      let p : Buffer = (copy_keys regs start).copied in
      let q : Buffer = put_unaligned_be32 (length regs * 8) p 4 in
      rw additional (record {
        generation =
            get_unaligned_be32-agree q start.copied 0 (λ j a b.
              put_unaligned_be32-before (length regs * 8) 4 p j b
              ∙ copy_keys-before regs start j f (omega (arith, b)))
            ∙ put_unaligned_be32-get env.dev.prgeneration 0 env.cmd.in_sdb.buffer generation;
        additional = put_unaligned_be32-get (length regs * 8) 4 p (omega (arith, room, small));
        keys =
            read_back-agree (length regs) 8 q p
              (λ j a. put_unaligned_be32-after (length regs * 8) 4 p j a)
            ∙ copy_keys-read_back regs start f keyed;
      })

-- The state after a list that is not cut.
abbrev filled : Env → Env
unfolding keys_from
filled env =
    let c = keys_from env in
    record env {
      cmd =
          set_in_resid_by_actual
            (record env.cmd {
              in_sdb = record env.cmd.in_sdb {
                buffer = put_unaligned_be32 (u32 (c.avail_len + (2 ^ 32 - 8))) c.copied 4;
              };
            })
            c.actual_len;
    }

not_short :
    (env : Env)
    → is_short env ≡ false
    → (8 ≤ alloc_len env) × (alloc_len env ≤ env.cmd.in_sdb.length)
not_short env fine = (ground (arith, fine), ground (arith, fine))

-- A READ KEYS whose allocation length is admitted and has room for all keys answers GOOD, where
-- the keys fit 64 bits and the generation 32: what the initiator then reads is the generation, the
-- length of the list and the keys of all registrations in their order, and the length of the
-- transfer is that of the list. The logical unit is as it was.
pub spc_pr_read_keys-Reports :
    (env : Env)
    → is_short env ≡ false
    → length env.dev.registration_list * 8 + 8 ≤ alloc_len env
    → All (λ r. r.key < 2 ^ 64) env.dev.registration_list
    → env.dev.prgeneration < 2 ^ 32
    → (after : Env) × (spc_pr_read_keys env ≡ some (Codes.sam_stat_good, after))
      × Reports env after.cmd.in_sdb.buffer
      × (after.cmd.in_sdb.transfer_len ≡ length env.dev.registration_list * 8 + 8)
      × (after.dev ≡ env.dev)
unfolding spc_pr_read_keys keys_from set_in_resid_by_actual resid_by_actual
spc_pr_read_keys-Reports env fine room keyed generation =
    let enough : (8 ≤ alloc_len env) × (alloc_len env ≤ env.cmd.in_sdb.length) =
      not_short env fine in
    let small = get_unaligned_be16_lt env.cmd.scb 7 in
    let sent : (keys_from env).actual_len ≡ 8 + length env.dev.registration_list * 8 =
      (copy_keys-lengths env.dev.registration_list _
        (keys_from-Fits env enough.0 room (omega (arith, small)))).1 in
    let within : leb (keys_from env).actual_len env.cmd.in_sdb.length ≡ true =
      ground (arith, sent, room, enough.1) in
    (
      filled env,
      rw fine refl,
      rw within (filled-Reports env enough.0 room small keyed generation),
      rw within (sent ∙ omega arith),
      refl,
    )
