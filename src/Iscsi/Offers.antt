-- ===== src/Iscsi/Offers.antt =====
-- What a login of usr/iscsi/iscsid.c makes of an answer to a value that the target offered.
use tgt.Base.{
  ℕ, ◌<◌, ◌≡◌, refl, ap, inl, inr, Bool, List, get_or, length, get_or-set_eq, leb, ==_refl,
  Bool-cases,
}
use tgt.Iscsi.Param.{
  KeyState, key_start, key_request, key_done, Param, no_param, key_at, val_at, put_val, check_as,
  param_check_val, param_set_val, param_first_local,
}
use tgt.Iscsi.Login.{Negotiation, state_at, answer, conclude, take_offer}

val_at-put_val :
    (params : List Param) (idx v : ℕ) → idx < length params → val_at (put_val params idx v) idx ≡ v
val_at-put_val params idx v h =
    ap (λ p. p.val)
      (get_or-set_eq params idx (record (get_or params idx no_param) { val = v }) no_param h)

module _ (strtol : List ℕ → ℕ) (print : ℕ → List ℕ) (grows : Bool) where
  conclude_agreed :
      (idx : ℕ) (key : List ℕ) (v : ℕ) (c : Negotiation)
      → val_at c.session_param idx ≡ v
      → (conclude strtol print grows idx key v c).failed ≡ c.failed
  unfolding conclude answer
  conclude_agreed idx key v c e = by_state (state_at c.session_param idx) refl
    where
      by_state :
          (s : KeyState)
          → state_at c.session_param idx ≡ s
          → (conclude strtol print grows idx key v c).failed ≡ c.failed
      by_state key_start f =
          rw (f, conclude)
            (elim (Bool-cases (leb param_first_local idx)) [
              | inl g ↦ rw g refl
              | inr g ↦ rw g refl
            ])
      by_state key_request f = rw (f, conclude) (rw e (rw (==_refl v) refl))
      by_state key_done f = rw (f, conclude) refl

-- No value that can be read makes the login fail, also where the target offered one and the
-- initiator answers another: the value it is compared with was overwritten by the settled one.
pub take_offer-accepts :
    (strtol : List ℕ → ℕ) (print : ℕ → List ℕ) (grows : Bool) (idx : ℕ) (key : List ℕ) (v : ℕ)
    (c : Negotiation)
    → idx < length c.session_param
    → (take_offer strtol print grows idx key v c).failed ≡ c.failed
unfolding take_offer param_check_val param_set_val answer
take_offer-accepts strtol print grows idx key v c known =
    elim (Bool-cases (check_as (key_at idx).ops (key_at idx) v).1) [
      | inl bad ↦ rw (bad, take_offer) refl
      | inr ok ↦
          rw (ok, take_offer)
            (elim (Bool-cases (leb param_first_local idx)) [
              | inl local ↦
                  rw (local, take_offer)
                    (conclude_agreed strtol print grows idx key _ _
                      (val_at-put_val c.session_param idx _ known))
              | inr sent ↦
                  rw (sent, take_offer)
                    (conclude_agreed strtol print grows idx key _ _
                      (val_at-put_val c.session_param idx _ known))
            ])
    ]
