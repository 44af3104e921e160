-- ===== src/Tests/Iscsi.antt =====
-- Text keys, a login and numbered commands of an iSCSI session.
use tgt.Base.{
  ℕ, ◌+◌, ◌≤◌, ◌≡◌, ◌≢◌, refl, inl, Bool, true, false, List, [], ◌∷◌, ◌++◌, ◌-◌, ◌<◌, ◌==◌, not,
  ◌&&◌, set, map, arith, length, All, text,
}
use mathlib.Core.List.{Perm}
use tgt.Iscsi.Keys.{Response, scan_keys, text_key_add}
use tgt.Iscsi.KeysRoundTrip.{IsPair, wire, keys_of, scan_keys_enough, keys_of-text_key_add}
use tgt.Iscsi.Param.{key_start, key_request, session_keys}
use tgt.Iscsi.Login.{Negotiation, text_scan_login, take_offer}
use tgt.Iscsi.LoginFits.{InRange, text_scan_login-InRange}
use tgt.Iscsi.Offers.{take_offer-accepts}
use tgt.Iscsi.Sequence.{IscsiTask, Session, iscsi_task_queue, run_from, insert_task}
use tgt.Iscsi.InOrder.{Served, starts, comes, Numbered, Served-InOrder}

-- "InitialR2T=No" and "MaxBurstLength=65536"
abbrev offers : List (List ℕ × List ℕ)
offers = (text "InitialR2T", text "No") ∷ (text "MaxBurstLength", text "65536") ∷ []

abbrev response : List (List ℕ × List ℕ) → Response
response kvs = record {
  rsp_data = wire kvs;
  rsp_buffer_size = 512;
  is_full = false;
  is_text = false;
  max_xmit = 8192;
}

scan_keys_enough_example : scan_keys 100 (wire offers) ≡ keys_of (wire offers)
scan_keys_enough_example = scan_keys_enough 100 (wire offers) (omega arith)

abbrev all_ne : ℕ → List ℕ → Bool
all_ne c [] = true
all_ne c (x ∷ xs) = not (x == c) && all_ne c xs

all_ne-All : (c : ℕ) (xs : List ℕ) → all_ne c xs ≡ true → All (λ x. x ≢ c) xs
all_ne-All c [] h = tt
all_ne-All c (x ∷ xs) h = (ground (arith, h), all_ne-All c xs (ground (arith, h)))

all_ne-IsPair :
    (key value : List ℕ)
    → all_ne b'=' key ≡ true
    → all_ne 0 key ≡ true
    → all_ne 0 value ≡ true
    → IsPair (key, value)
all_ne-IsPair key value e z v = (both key e z, all_ne-All 0 value v)
  where
    both :
        (xs : List ℕ)
        → all_ne b'=' xs ≡ true
        → all_ne 0 xs ≡ true
        → All (λ c. (c ≢ b'=') × (c ≢ 0)) xs
    both [] e z = tt
    both (x ∷ xs) e z =
        ((ground (arith, e), ground (arith, z)), both xs (ground (arith, e)) (ground (arith, z)))

offers-IsPair : All IsPair offers
offers-IsPair = (
  all_ne-IsPair (text "InitialR2T") (text "No") refl refl refl,
  (all_ne-IsPair (text "MaxBurstLength") (text "65536") refl refl refl, tt),
)

keys_of-text_key_add_example :
    (keys_of (text_key_add false (response offers) (text "DataDigest") (text "None")).rsp_data
      ≡ offers ++ ((text "DataDigest", text "None") ∷ []))
    × (length (text_key_add false (response offers) (text "DataDigest") (text "None")).rsp_data
        ≤ (text_key_add false (response offers) (text "DataDigest") (text "None")).rsp_buffer_size)
keys_of-text_key_add_example =
    keys_of-text_key_add false (response offers) offers (text "DataDigest") (text "None") refl
      (omega arith) offers-IsPair (all_ne-IsPair (text "DataDigest") (text "None") refl refl refl)
      (inl (omega arith)) (inl (omega arith))

-- A login's parameters at their defaults; numbers are read and written as decimals of one digit.
abbrev strtol : List ℕ → ℕ
strtol [] = 0
strtol (c ∷ s) = c - 48

abbrev print : ℕ → List ℕ
print n = (n + 48) ∷ []

abbrev login : Negotiation
login = record {
  session_param = map (λ k. record { state = key_start; val = k.def }) session_keys;
  rsp = response [];
  is_rdma = false;
  failed = false;
}

login-InRange : InRange login
unfolding session_keys
login-InRange = refl

text_scan_login-InRange_example : InRange (text_scan_login strtol print true (wire offers) login)
text_scan_login-InRange_example =
    text_scan_login-InRange strtol print true (wire offers) login login-InRange

-- The target has offered 1 for MaxOutstandingR2T, and the initiator answers 8.
abbrev offered : Negotiation
offered = record login {
  session_param = set login.session_param 4 (record { state = key_request; val = 1 });
}

offered_known : 4 < length offered.session_param
unfolding session_keys
offered_known = omega arith

take_offer-accepts_example :
    (take_offer strtol print true 4 (text "MaxOutstandingR2T") 8 offered).failed ≡ false
take_offer-accepts_example =
    take_offer-accepts strtol print true 4 (text "MaxOutstandingR2T") 8 offered offered_known

abbrev numbered : ℕ → IscsiTask
numbered sn = record { tag = sn; cmd_sn = sn; immediate = false }

abbrev urgent_task : IscsiTask
urgent_task = record { tag = 9; cmd_sn = 2; immediate = true }

-- Commands 6 and 5, in this order, in a session that waits for 5.
abbrev served : Session
served = record { exp_cmd_sn = 7; pending_cmd_list = []; executed = numbered 6 ∷ numbered 5 ∷ [] }

two_served : Served 5 (numbered 5 ∷ numbered 6 ∷ []) served
unfolding iscsi_task_queue insert_task run_from
two_served =
    comes
      (comes (starts (omega arith)) (numbered 6)
        (record { queued = refl; narrow = omega arith; window = omega arith; fresh = tt }))
      (numbered 5)
      (record {
        queued = refl;
        narrow = omega arith;
        window = omega arith;
        fresh = (λ e. omega (arith, e), tt);
      })

Served-InOrder_example :
    Numbered 5 7 (numbered 6 ∷ numbered 5 ∷ [])
    × All (λ (p : IscsiTask). p.cmd_sn ≢ 7) []
    × Perm (numbered 6 ∷ numbered 5 ∷ []) (numbered 5 ∷ numbered 6 ∷ [])
Served-InOrder_example = Served-InOrder two_served
