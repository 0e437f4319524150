-- ===== src/Tests/Queries.antt =====
-- Lines of the queries of src/scpi_dev.c.
use cgr101_scpi.Prelude.{◌≡◌, refl, false, some, List, [], ◌∷◌, codes, arith}
use cgr101_scpi.Prelude.Int.{ℤ}
use cgr101_scpi.Info.{Info}
use cgr101_scpi.Input
use cgr101_scpi.Input.{ScpiType}
use cgr101_scpi.Commands.Query.{Query, ask_line}
use cgr101_scpi.Commands.Query.Replies.{ask_line-response}
use cgr101_scpi.Output.Response.{response, elements, more_commands}
use cgr101_scpi.Commands.Query.Answers.{answers, all_answers}
use cgr101_scpi.Channels.{chan_mask}
use cgr101_scpi.Tests.Fixed.{fixed, fresh}

abbrev both_channels : ScpiType ℤ
both_channels = record { val = Input.chan 3; src = [] }

-- The trigger, what both channels are set to, and the four stored offsets.
abbrev asked : List (Query ℤ)
asked = Query.sense_voltage_upq both_channels ∷ Query.internal_offsetq ∷ []

ask_line-response_example :
    (i' : Info ℤ) × (ask_line fixed Query.trigger_slopeq asked fresh ≡ some i')
    × (i' ≡ record fresh { output = i'.output })
    × (i'.output.buf ≡ codes "NEG;+1,+1;+1,+1,+1,+1")
    × (i'.output.overflow ≡ false)
unfolding response elements more_commands answers all_answers chan_mask
ask_line-response_example =
    ask_line-response fixed Query.trigger_slopeq asked fresh (codes "NEG" ∷ [])
      ((codes "+1" ∷ codes "+1" ∷ [])
        ∷ (codes "+1" ∷ codes "+1" ∷ codes "+1" ∷ codes "+1" ∷ [])
        ∷ [])
      refl refl refl (omega arith)
