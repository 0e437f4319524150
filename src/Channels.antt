-- ===== src/Channels.antt =====
-- src/scpi_dev.c: channel lists as masks, and the commands on channels.
pub mod Ranges
use Prim.Native.Nat.{bit_or}
use cgr101_scpi.Prelude.{
  ℕ, zero, suc, ◌-◌, ◌*◌, ◌%◌, ◌^◌, not, Option, none, some, ltb, ◌==◌, ◌&&◌, if◌then◌else◌,
}
use cgr101_scpi.Prelude.Int.{pos, leb_ℤ, pos_part}
use cgr101_scpi.Prelude.Fault.{◌>>=◌, ◌>>◌, require}
use cgr101_scpi.Input.{ScpiType, chan, int}

-- `CGR101_MIN_CHAN` and `CGR101_MAX_CHAN`
abbrev pub min_chan : ℕ
min_chan = 1

abbrev pub max_chan : ℕ
max_chan = 7

module _ {F : Type 0} where
  -- `scpi_dev_channel_num`: any other value is left as it is.
  unfoldable pub channel_num : ScpiType F → ScpiType F
  channel_num x = elim x.val [
    | int n ↦
        if leb_ℤ (pos min_chan) n && leb_ℤ n (pos max_chan)
        then record x { val = chan (2 ^ (pos_part n - 1)) }
        else x
    | _ ↦ x
  ]

-- The loop of `scpi_dev_channel_range` on a 64 bit long, on fuel: none means that an assertion
-- failed, or that the fuel ran out.
unfoldable pub set_range : ℕ → ℕ → ℕ → ℕ → Option ℕ
set_range zero start end mask = none
set_range (suc fuel) start end mask =
    let next = start * 2 % 2 ^ 64 in
    let rest = set_range fuel next end (bit_or mask start) in
    if start == end then some mask else if next == 0 then none else rest

-- The body of `scpi_dev_channel_range`, on the two masks. A bit leaves the long after 64 rounds.
unfoldable pub range_mask : ℕ → ℕ → Option ℕ
unfolding set_range
range_mask v₁ v₂ = do
  let (start, end) = if ltb v₁ v₂ then (v₁, v₂) else (v₂, v₁)
  require (not (start == 0))
  require (not (end == 0))
  require (ltb start end)
  set_range 65 start end v₁

module _ {F : Type 0} where
  -- `assert(v->type == SCPI_TYPE_CHAN)`, and `scpi_dev_chan`
  unfoldable pub chan_mask : ScpiType F → Option ℕ
  chan_mask x = elim x.val [ chan m ↦ some m | _ ↦ none ]

  -- `scpi_dev_channel_range`
  unfoldable pub channel_range : ScpiType F → ScpiType F → Option (ScpiType F)
  unfolding chan_mask range_mask
  channel_range x y = do
    v₁ ← chan_mask x
    v₂ ← chan_mask y
    m ← range_mask v₁ v₂
    some (record x { val = chan m })

  -- `scpi_dev_channel_range_append`
  unfoldable pub channel_range_append : ScpiType F → ScpiType F → Option (ScpiType F)
  unfolding chan_mask
  channel_range_append x y = do
    v₁ ← chan_mask x
    v₂ ← chan_mask y
    some (record x { val = chan (bit_or v₁ v₂) })
