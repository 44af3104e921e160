-- ===== src/Perform/Guards.antt =====
-- What a command passes on its way to its handler (`scsi_cmd_perform` of usr/scsi.c): unit
-- attentions come first.
use tgt.Base.{
  min, ℕ, ◌<◌, ◌≤◌, Bool, true, false, ◌||◌, ◌≡◌, refl, ◌∙◌, some, List, [], ◌∷◌, byte, bit, ◌==◌,
  arith, is_one_of,
}
use tgt.Scsi.Codes
use tgt.Scsi.Cmd.{ScsiCmd}
use tgt.Scsi.Cdb.{cdb_control}
use tgt.Scsi.Lu.{Env, Outcome}
use tgt.Target.Nexus.{ItlInfo, ItNexus, UaSense, memcpy, ua_sense_del}
use tgt.Perform.{
  it_nexus_lu_info_lookup, itn_lu_info, put_info, put_itn_lu_info, attend, scsi_cmd_perform,
}

-- Commands with a plain control byte, to a logical unit that exists, that have no rule of their
-- own for unit attentions.
pub record IsOrdinary (env : Env) : Type 0 where
  pub plain : (bit (cdb_control env.cmd) 0 || bit (cdb_control env.cmd) 2) ≡ false
  pub addressed : (env.dev.lun == env.cmd.dev_id) ≡ true
  pub no_exception :
      is_one_of (byte env.cmd.scb 0) (Codes.inquiry ∷ Codes.request_sense ∷ Codes.report_luns ∷ [])
      ≡ false

lookup_lun :
    (lun : ℕ) (xs : List ItlInfo) (info : ItlInfo)
    → it_nexus_lu_info_lookup lun xs ≡ some info
    → (info.lun == lun) ≡ true
unfolding it_nexus_lu_info_lookup
lookup_lun lun [] info e = absurd (cc)
lookup_lun lun (x ∷ xs) info e = ground (arith, lookup_lun lun xs info)

lookup-put_info :
    (new info : ItlInfo) (lun : ℕ) (xs : List ItlInfo)
    → (new.lun == lun) ≡ true
    → it_nexus_lu_info_lookup lun xs ≡ some info
    → it_nexus_lu_info_lookup lun (put_info new lun xs) ≡ some new
unfolding it_nexus_lu_info_lookup put_info
lookup-put_info new info lun [] same e = absurd (cc)
lookup-put_info new info lun (x ∷ xs) same e = ground (arith, lookup-put_info new info lun xs)

itn_lu_info_lun :
    (id lun : ℕ) (xs : List ItNexus) (info : ItlInfo)
    → itn_lu_info id lun xs ≡ some info
    → (info.lun == lun) ≡ true
unfolding itn_lu_info
itn_lu_info_lun id lun [] info e = absurd (cc)
itn_lu_info_lun id lun (x ∷ xs) info e =
    ground (arith, itn_lu_info_lun id lun xs info, lookup_lun lun x.itn_itl_info_list info)

itn_lu_info-put :
    (new info : ItlInfo) (id lun : ℕ) (xs : List ItNexus)
    → (new.lun == lun) ≡ true
    → itn_lu_info id lun xs ≡ some info
    → itn_lu_info id lun (put_itn_lu_info new id lun xs) ≡ some new
unfolding itn_lu_info put_itn_lu_info
itn_lu_info-put new info id lun [] same e = absurd (cc)
itn_lu_info-put new info id lun (x ∷ xs) same e =
    ground
      (arith, itn_lu_info-put new info id lun xs, lookup-put_info new info lun x.itn_itl_info_list)

perform-attend :
    (bits : ℕ → ℕ) (supported : ℕ → Bool) (handlers : ℕ → Env → Outcome) (env : Env)
    → IsOrdinary env
    → scsi_cmd_perform bits supported handlers env ≡ attend bits supported handlers env true
unfolding scsi_cmd_perform
perform-attend bits supported handlers env o =
    rw o.plain (rw o.addressed (ground (arith, o.no_exception)))

abbrev attended : Env → ScsiCmd → ItlInfo → Env
attended env cmd left = record env {
  cmd = cmd;
  it_nexus_list = put_itn_lu_info left env.cmd.it_nexus.itn_id env.dev.lun env.it_nexus_list;
}

attend-pending :
    (bits : ℕ → ℕ) (supported : ℕ → Bool) (handlers : ℕ → Env → Outcome) (env : Env)
    (info : ItlInfo) (cmd : ScsiCmd) (left : ItlInfo)
    → itn_lu_info env.cmd.it_nexus.itn_id env.dev.lun env.it_nexus_list ≡ some info
    → ua_sense_del env.cmd info true ≡ (true, cmd, left)
    → attend bits supported handlers env true
      ≡ some (Codes.sam_stat_check_condition, attended env cmd left)
unfolding attend
attend-pending bits supported handlers env info cmd left known e =
    rw (known, attend) (rw (e, attend) refl)

abbrev reported : Env → UaSense → ScsiCmd
reported env uas = record env.cmd {
  sense_buffer = memcpy env.cmd.sense_buffer uas.ua_sense_buffer (min uas.ua_sense_len 252);
  sense_len = min uas.ua_sense_len 252;
}

-- While a unit attention waits for the nexus, an ordinary command is not performed: it ends with
-- CHECK CONDITION; its sense data are those of the oldest, cut to 252 bytes, and the rest of the
-- sense buffer and what else the handlers read of the command stay; the oldest alone is taken off,
-- and the logical unit is left as it was.
pub scsi_cmd_perform-attention :
    (bits : ℕ → ℕ) (supported : ℕ → Bool) (handlers : ℕ → Env → Outcome) (env : Env)
    (info : ItlInfo) (uas : UaSense) (rest : List UaSense)
    → IsOrdinary env
    → itn_lu_info env.cmd.it_nexus.itn_id env.dev.lun env.it_nexus_list ≡ some info
    → info.pending_ua_sense_list ≡ uas ∷ rest
    → (after : Env) × (scsi_cmd_perform bits supported handlers env
        ≡ some (Codes.sam_stat_check_condition, after))
      × (after.cmd.sense_len ≡ min uas.ua_sense_len 252)
      × ((j : ℕ) → j < after.cmd.sense_len → after.cmd.sense_buffer j ≡ uas.ua_sense_buffer j)
      × ((j : ℕ) → after.cmd.sense_len ≤ j → after.cmd.sense_buffer j ≡ env.cmd.sense_buffer j)
      × (record after.cmd { sense_buffer = env.cmd.sense_buffer; sense_len = env.cmd.sense_len }
          ≡ env.cmd)
      × (itn_lu_info env.cmd.it_nexus.itn_id env.dev.lun after.it_nexus_list
          ≡ some (record info { pending_ua_sense_list = rest }))
      × (after.dev ≡ env.dev)
unfolding attend ua_sense_del
scsi_cmd_perform-attention bits supported handlers env info uas rest o known pending = (
  attended env (reported env uas) (record info { pending_ua_sense_list = rest }),
  perform-attend bits supported handlers env o
      ∙ attend-pending bits supported handlers env info _ _ known (rw pending refl),
  refl,
  λ j h. ground (arith, h),
  λ j h. ground (arith, h),
  refl,
  itn_lu_info-put (record info { pending_ua_sense_list = rest }) info _ _ _
      (itn_lu_info_lun _ _ _ info known) known,
  refl,
)
