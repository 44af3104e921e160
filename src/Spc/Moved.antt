-- ===== src/Spc/Moved.antt =====
-- What `spc_pr_register_and_move` of usr/spc.c does to the reservation.
use tgt.Base.{
  true, false, ◌≡◌, refl, ◌≢◌, sym, inl, inr, some, byte, bit, ==_iff, ==_ne, Bool-cases,
  get_unaligned_be32,
}
use tgt.Scsi.Codes
use tgt.Scsi.Lu.{Registration, Env, deref}
use tgt.Spc.Registration.{
  is_holder, is_pr_holder, deref_holder, registration_of, lookup_registration_by_key, cmd_res_key,
  cmd_sa_res_key,
}
use tgt.Spc.Register.{next_generation}
use tgt.Spc.Move.{
  Transportid, names_destination, moved, move_from, bad_move_parameter, spc_pr_register_and_move,
}
use tgt.Spc.Store.{deref-unregister_ne, lookup_by_key-deref}
use tgt.Spc.Invariant.{IsValid}

-- The commands that move the reservation of `h` from `reg` to another registration, `dst`.
pub record Moves (transportid : Transportid) (env : Env) (reg h dst : Registration) : Type 0 where
  pub well_formed : bad_move_parameter env ≡ false
  pub sender : registration_of env ≡ some reg
  pub held : deref_holder env.dev ≡ some (some h)
  pub holds : is_holder h reg ≡ true
  pub own_key : reg.key ≡ cmd_res_key env.cmd
  pub nonzero : cmd_sa_res_key env.cmd ≢ 0
  pub found :
      lookup_registration_by_key env.dev.registration_list (cmd_sa_res_key env.cmd) ≡ some dst
  pub named :
      names_destination transportid env.cmd.out_sdb.buffer
        (get_unaligned_be32 env.cmd.out_sdb.buffer 20)
        dst
      ≡ true
  pub other : dst.addr ≢ reg.addr

abbrev after_move : Env → Registration → Registration → Env
after_move env reg dst = record (moved env reg dst) {
  dev = next_generation (moved env reg dst).dev;
}

move_from-runs :
    (transportid : Transportid) (env : Env) (reg h dst : Registration)
    → Moves transportid env reg h dst
    → move_from transportid env reg ≡ some (Codes.sam_stat_good, after_move env reg dst)
unfolding move_from
move_from-runs transportid env reg h dst m =
    rw ((==_iff reg.key (cmd_res_key env.cmd)).1 m.own_key)
      (rw (==_ne (cmd_sa_res_key env.cmd) 0 m.nonzero) (rw m.found (rw m.named refl)))

move-runs :
    (transportid : Transportid) (env : Env) (reg h dst : Registration)
    → Moves transportid env reg h dst
    → spc_pr_register_and_move transportid env ≡ some (Codes.sam_stat_good, after_move env reg dst)
unfolding spc_pr_register_and_move is_pr_holder
move-runs transportid env reg h dst m =
    rw m.well_formed
      (rw m.sender (rw m.held (rw m.holds (move_from-runs transportid env reg h dst m))))

-- REGISTER AND MOVE makes the destination the holder just as it was registered: on a valid logical
-- unit the holder that is read afterwards is `dst` with the scope and the type that it had before,
-- whatever the type of the reservation that `h` held.
pub spc_pr_register_and_move-holder :
    (transportid : Transportid) (env : Env) (reg h dst : Registration)
    → Moves transportid env reg h dst
    → IsValid env.dev
    → (after : Env) × (spc_pr_register_and_move transportid env ≡ some (Codes.sam_stat_good, after))
      × (deref_holder after.dev ≡ some (some dst))
unfolding moved deref_holder
spc_pr_register_and_move-holder transportid env reg h dst m v =
    (after_move env reg dst, move-runs transportid env reg h dst m, read)
  where
    stored : deref env.dev.registration_list dst.addr ≡ some dst
    stored = (lookup_by_key-deref _ _ dst v.distinct m.found).0

    read : deref_holder (after_move env reg dst).dev ≡ some (some dst)
    read = elim (Bool-cases (bit (byte env.cmd.out_sdb.buffer 17) 1)) [
      | inl e ↦ rw e (
          rw
            (
              deref-unregister_ne reg.addr dst.addr env.dev.registration_list
                  (λ q. m.other (sym q)),
              deref_holder,
            )
            (rw (stored, deref_holder) refl))
      | inr e ↦ rw e (rw (stored, deref_holder) refl)
    ]
