-- ===== src/Scsi/UsageSize.antt =====
-- The usage data of usr/scsi.c is as long as the commands it describes.
use tgt.Base.{
  ℕ, ◌≤◌, ◌≡◌, Bool, true, ◌&&◌, Option, none, some, List, [], ◌∷◌, arith, length, ◌==◌, is_one_of,
  Option-cases, refl, ◌∙◌, inl, inr,
}
use tgt.Scsi.Cdb.{get_scsi_command_size}
use tgt.Scsi.Usage.{UsageCase, usage_cases, select, set_op, get_scsi_cdb_usage_data}

-- Every operation code of a list has commands of `n` bytes.
unfoldable all_sized : ℕ → List ℕ → Bool
all_sized n [] = true
all_sized n (op ∷ ops) = (n == get_scsi_command_size op) && all_sized n ops

unfoldable well_sized : List UsageCase → Bool
unfolding all_sized
well_sized [] = true
well_sized (c ∷ cs) = all_sized (length c.usage) c.ops && well_sized cs

usage_cases-well_sized : well_sized usage_cases ≡ true
unfolding well_sized get_scsi_command_size
usage_cases-well_sized = refl

all_sized-one_of :
    (n op : ℕ) (ops : List ℕ)
    → all_sized n ops ≡ true
    → is_one_of op ops ≡ true
    → n ≡ get_scsi_command_size op
unfolding all_sized
all_sized-one_of n op [] s e = absurd (cc)
all_sized-one_of n op (x ∷ xs) s e = ground (arith, all_sized-one_of n op xs)

select-sized :
    (op sa : ℕ) (cs : List UsageCase) (usage : List ℕ)
    → well_sized cs ≡ true
    → select op sa cs ≡ some usage
    → length usage ≡ get_scsi_command_size op
unfolding well_sized select
select-sized op sa [] usage s e = absurd (cc)
select-sized op sa (c ∷ cs) usage s e =
    ground (arith, select-sized op sa cs usage, all_sized-one_of (length c.usage) op c.ops)

length-set_op : (op : ℕ) (bs : List ℕ) → length (set_op op bs) ≡ length bs
unfolding set_op
length-set_op op [] = refl
length-set_op op (b ∷ bs) = refl

get_scsi_command_size_le : (op : ℕ) → get_scsi_command_size op ≤ 16
unfolding get_scsi_command_size
get_scsi_command_size_le op = ground arith

-- The size of what is found: that of the command, or of the 16 zeros.
abbrev pub usage_size : Option (List ℕ) → ℕ → ℕ
usage_size none op = 16
usage_size (some usage) op = get_scsi_command_size op

-- For every operation code and service action the usage data that the code has is exactly as long
-- as the command, and what it returns, 16 zeros where it has none, is never shorter than the
-- command, of which so many bytes are copied.
pub length-get_scsi_cdb_usage_data :
    (op sa : ℕ)
    → (length (get_scsi_cdb_usage_data op sa) ≡ usage_size (select op sa usage_cases) op)
      × (get_scsi_command_size op ≤ length (get_scsi_cdb_usage_data op sa))
unfolding get_scsi_cdb_usage_data
length-get_scsi_cdb_usage_data op sa = (sized, covers (select op sa usage_cases) sized)
  where
    sized : length (get_scsi_cdb_usage_data op sa) ≡ usage_size (select op sa usage_cases) op
    sized = elim (Option-cases (select op sa usage_cases)) [
      | inl e ↦ rw (get_scsi_cdb_usage_data, e) refl
      | inr (usage, e) ↦
          rw (get_scsi_cdb_usage_data, e)
            (length-set_op op usage ∙ select-sized op sa usage_cases usage usage_cases-well_sized e)
    ]

    covers :
        (found : Option (List ℕ))
        → length (get_scsi_cdb_usage_data op sa) ≡ usage_size found op
        → get_scsi_command_size op ≤ length (get_scsi_cdb_usage_data op sa)
    covers none e = omega (arith, e, get_scsi_command_size_le op)
    covers (some usage) e = omega (arith, e)
