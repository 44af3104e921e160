-- ===== src/Target/AccountPlaces.antt =====
-- What binding and unbinding keep of the places of a target, usr/target.c.
use tgt.Base.{
  ℕ, zero, suc, ◌-◌, ◌*◌, ◌≡◌, ◌≢◌, ◌<◌, ◌∙◌, refl, subst, inl, inr, Bool, true, false, List, ◌∷◌,
  ◌++◌, ◌==◌, arith, length, ltb, set, replicate, Bool-cases, Option-cases, length-append,
}
use tgt.Target.Lookup.{ScsiTarget}
use tgt.Target.Account.{
  AccountType, account_incoming, account_outgoing, has_aid, replace_aid, grow_aids, inaccount_bind,
  inaccount_unbind, outaccount_bind, outaccount_unbind, ctl_target,
}
use tgt.Target.Places.{
  bound, IsDistinct, replace_aid-length, replace_aid-bound, replace_aid-IsDistinct, set-append,
  length-replicate, bound-append, IsDistinct-append,
}

-- The places are as many as the target says, and so are those that are taken; no account is in two.
pub record HasPlaces (t : ScsiTarget) : Type 0 where
  pub room : 0 < t.max_inaccount
  pub sized : length t.in_aids ≡ t.max_inaccount
  pub counted : bound t.in_aids ≡ t.nr_inaccount
  pub distinct : IsDistinct t.in_aids

grown :
    (aid m : ℕ) (es : List ℕ)
    → 0 < m
    → length es ≡ m
    → set (es ++ replicate (m * 2 - m) 0) m aid ≡ es ++ (aid ∷ replicate (m - 1) 0)
grown aid zero es some_room sized = absurd (omega (arith, some_room))
grown aid (suc k) es some_room sized =
    let twice : suc k * 2 - suc k ≡ suc k = omega arith in
    let before : suc k - 1 ≡ k = omega arith in
    rw (twice, before)
      (subst (λ n. set (es ++ (0 ∷ replicate k 0)) n aid ≡ es ++ (aid ∷ replicate k 0)) sized
        (set-append es (replicate k 0) 0 aid))

grow_aids-HasPlaces :
    (aid : ℕ) (t : ScsiTarget)
    → aid ≢ 0
    → has_aid aid t.in_aids ≡ false
    → HasPlaces t
    → HasPlaces (grow_aids aid t)
unfolding grow_aids
grow_aids-HasPlaces aid t h free v =
    let e = grown aid t.max_inaccount t.in_aids v.room v.sized in
    let m = t.max_inaccount in
    record {
      room = omega (arith, v.room);
      sized = rw e (
          omega (
            arith,
            v.room,
            v.sized,
            length-append t.in_aids (aid ∷ replicate (m - 1) 0),
            length-replicate (m - 1),
          ));
      counted = rw e (ground (arith, v.counted, bound-append t.in_aids aid (m - 1), h));
      distinct = rw e (IsDistinct-append t.in_aids aid (m - 1) h free v.distinct);
    }

inaccount_bind-HasPlaces :
    (memory : Bool) (aid : ℕ) (t : ScsiTarget)
    → aid ≢ 0
    → HasPlaces t
    → HasPlaces (inaccount_bind memory aid t).1
unfolding inaccount_bind
inaccount_bind-HasPlaces memory aid t h v = elim (Bool-cases (has_aid aid t.in_aids)) [
  | inl e ↦ rw (e, inaccount_bind) v
  | inr free ↦ elim (Bool-cases (ltb t.nr_inaccount t.max_inaccount)) [
    | inl less ↦ elim (Option-cases (replace_aid 0 aid t.in_aids)) [
      | inl f ↦ rw (free, less, f, inaccount_bind) v
      | inr (aids, f) ↦
          rw (free, less, f, inaccount_bind)
            (record {
              room = v.room;
              sized = replace_aid-length 0 aid t.in_aids aids f ∙ v.sized;
              counted = ground (arith, v.counted, replace_aid-bound 0 aid t.in_aids aids f, h);
              distinct = replace_aid-IsDistinct 0 aid t.in_aids aids f (inr free) v.distinct;
            })
    ]
    | inr full ↦ elim (Bool-cases memory) [
      | inl m ↦ rw (free, full, m, inaccount_bind) (grow_aids-HasPlaces aid t h free v)
      | inr m ↦ rw (free, full, m, inaccount_bind) v
    ]
  ]
]

inaccount_unbind-HasPlaces :
    (aid : ℕ) (t : ScsiTarget) → aid ≢ 0 → HasPlaces t → HasPlaces (inaccount_unbind aid t).1
unfolding inaccount_unbind
inaccount_unbind-HasPlaces aid t h v = elim (Option-cases (replace_aid aid 0 t.in_aids)) [
  | inl f ↦ rw (f, inaccount_unbind) v
  | inr (aids, f) ↦
      rw (f, inaccount_unbind)
        (record {
          room = v.room;
          sized = replace_aid-length aid 0 t.in_aids aids f ∙ v.sized;
          counted = ground (arith, v.counted, replace_aid-bound aid 0 t.in_aids aids f, h);
          distinct = replace_aid-IsDistinct aid 0 t.in_aids aids f (inl refl) v.distinct;
        })
]

pub ctl_target-HasPlaces :
    (memory : Bool) (type : AccountType) (bind : Bool) (aid : ℕ) (t : ScsiTarget)
    → aid ≢ 0
    → HasPlaces t
    → HasPlaces (ctl_target memory type bind aid t).1
unfolding ctl_target outaccount_bind outaccount_unbind
ctl_target-HasPlaces memory account_incoming true aid t h v =
    inaccount_bind-HasPlaces memory aid t h v
ctl_target-HasPlaces memory account_incoming false aid t h v = inaccount_unbind-HasPlaces aid t h v
ctl_target-HasPlaces memory account_outgoing true aid t h v = elim (Bool-cases (t.out_aid == 0)) [
  | inl e ↦
      rw (e, ctl_target)
        (record { room = v.room; sized = v.sized; counted = v.counted; distinct = v.distinct })
  | inr e ↦ rw (e, ctl_target) v
]
ctl_target-HasPlaces memory account_outgoing false aid t h v =
    elim (Bool-cases (t.out_aid == aid)) [
      | inl e ↦
          rw (e, ctl_target)
            (record { room = v.room; sized = v.sized; counted = v.counted; distinct = v.distinct })
      | inr e ↦ rw (e, ctl_target) v
    ]
