-- ===== src/Scanner/Words.antt =====
-- src/scanner.l: the mnemonics of the commands, in the notation of the SCPI standard, in which the
-- short form is what is not in small letters, and the tokens of src/scpi.y for them.
use cgr101_scpi.Prelude.{ℕ, ◌≡◌, refl, true, List, [], ◌∷◌, length, leb, codes, if◌then◌else◌, ◌&&◌}
use Prim.Native.String.{String}
use cgr101_scpi.Output.{Text}
use cgr101_scpi.Scanner.Pattern.{longest}
use cgr101_scpi.Scanner.Rule.{Action, parser_ident, choose_rule}
use cgr101_scpi.Scanner.Rules.{initial_rules}
use cgr101_scpi.Scanner.Yylex.{taken}
use cgr101_scpi.Scanner.Token.{
  Token, abor, all, asc, bin, cal, capq, cls, comm, conc, condq, conf, confq, contq, counq, coup,
  cw, dat, datq, dc, dcyc, dcycq, def, dig, echo, enab, enabq, err, errq, ese, eseq, esrq, even,
  evenq, ext, fetc, fix, form, formq, freq, freqq, func, funcq, hex, idnq, imm, incl, init, inp,
  int, integer, internal, lev, levq, loc, locq, low, lowq, max, meas, min, neg, nextq, none_word,
  oct, off, offs, offsq, on, opc, opcq, oper, operq, oref, pack, poin, poinq, pos, pres, ptp, ptpq,
  puls, ques, quesq, quit, rand, rang, rangq, read, real, res, rst, sens, setuq, shap, showq, sin,
  sle, slop, slopq, sour, sourq, squ, sre, sreq, stat, state, stateq, statq, status, stbq, stor,
  swe, syst, tcp, time, timeq, tint, tintq, tri, trig, tstq, uint, upp, uppq, user, userq, versq,
  volt, wai,
}

pub record Word : Type 0 where
  pub mnemonic : Text
  pub token : Token

abbrev pub reads : String → Token → Word
reads s t = record { mnemonic = codes s; token = t }

abbrev pub short_form : Text → Text
short_form [] = []
short_form (c ∷ cs) = if leb 97 c && leb c 122 then short_form cs else c ∷ short_form cs

-- The rule that is chosen at the beginning of a line: how much it takes, and its action.
unfoldable pub rule_for : Text → ℕ × Action
unfolding choose_rule
rule_for s = taken (choose_rule true initial_rules s)

abbrev pub chosen : List Word → List (ℕ × Action)
chosen [] = []
chosen (w ∷ ws) = rule_for w.mnemonic ∷ rule_for (short_form w.mnemonic) ∷ chosen ws

abbrev pub intended : List Word → List (ℕ × Action)
intended [] = []
intended (w ∷ ws) =
    (length w.mnemonic, parser_ident w.token)
    ∷ (length (short_form w.mnemonic), parser_ident w.token)
    ∷ intended ws

abbrev pub first_words : List Word
first_words =
    reads "*CLS" cls
    ∷ reads "*ESE" ese
    ∷ reads "*ESE?" eseq
    ∷ reads "*ESR?" esrq
    ∷ reads "*IDN?" idnq
    ∷ reads "*OPC" opc
    ∷ reads "*OPC?" opcq
    ∷ reads "*RST" rst
    ∷ reads "*SRE" sre
    ∷ reads "*SRE?" sreq
    ∷ reads "*STB?" stbq
    ∷ reads "*TST?" tstq
    ∷ reads "*WAI" wai
    ∷ reads "ABORt" abor
    ∷ reads "ALL" all
    ∷ reads "ASCii" asc
    ∷ reads "BINary" bin
    ∷ reads "CALibrate" cal
    ∷ reads "CAPability?" capq
    ∷ reads "COMMunicate" comm
    ∷ reads "CONCurrent" conc
    ∷ reads "CONDition?" condq
    ∷ reads "CONFigure" conf
    ∷ reads "CONFigure?" confq
    ∷ reads "CONTrol?" contq
    ∷ reads "COUNt?" counq
    ∷ reads "COUPling" coup
    ∷ reads "CW" cw
    ∷ reads "DATa" dat
    ∷ reads "DATa?" datq
    ∷ reads "DC" dc
    ∷ reads "DCYCle" dcyc
    ∷ reads "DCYCle?" dcycq
    ∷ reads "DEF" def
    ∷ reads "DIGital" dig
    ∷ reads "ECHO" echo
    ∷ reads "ENABle" enab
    ∷ reads "ENABle?" enabq
    ∷ reads "ERRor" err
    ∷ reads "ERRor?" errq
    ∷ reads "EVENt" even
    ∷ reads "EVENt?" evenq
    ∷ reads "EXTernal" ext
    ∷ []

abbrev pub more_words : List Word
more_words =
    reads "FETCh" fetc
    ∷ reads "FIXed" fix
    ∷ reads "FORMat" form
    ∷ reads "FORMat?" formq
    ∷ reads "FREQuency" freq
    ∷ reads "FREQuency?" freqq
    ∷ reads "FUNCtion" func
    ∷ reads "FUNCtion?" funcq
    ∷ reads "HEXadecimal" hex
    ∷ reads "IMMediate" imm
    ∷ reads "INCLude" incl
    ∷ reads "INITiate" init
    ∷ reads "INPut" inp
    ∷ reads "INT" int
    ∷ reads "INTEGER" integer
    ∷ reads "INTERNAL" internal
    ∷ reads "LEVel" lev
    ∷ reads "LEVel?" levq
    ∷ reads "LOCation" loc
    ∷ reads "LOCation?" locq
    ∷ reads "LOWer" low
    ∷ reads "LOWer?" lowq
    ∷ reads "MAX" max
    ∷ reads "MEASure" meas
    ∷ reads "MIN" min
    ∷ reads "NEGative" neg
    ∷ reads "NEXT?" nextq
    ∷ reads "OCTal" oct
    ∷ reads "NONE" none_word
    ∷ reads "OFF" off
    ∷ reads "OFFSet" offs
    ∷ reads "OFFSet?" offsq
    ∷ reads "ON" on
    ∷ reads "OPERation" oper
    ∷ reads "OPERation?" operq
    ∷ reads "OREFerence" oref
    ∷ reads "PACK" pack
    ∷ reads "POINts" poin
    ∷ reads "POINts?" poinq
    ∷ reads "POSitive" pos
    ∷ reads "PRESet" pres
    ∷ reads "PTPeak" ptp
    ∷ reads "PTPeak?" ptpq
    ∷ []

abbrev pub last_words : List Word
last_words =
    reads "PULSe" puls
    ∷ reads "QUEStionable" ques
    ∷ reads "QUEStionable?" quesq
    ∷ reads "QUIT" quit
    ∷ reads "RANDom" rand
    ∷ reads "RANGe" rang
    ∷ reads "RANGe?" rangq
    ∷ reads "READ" read
    ∷ reads "REAL" real
    ∷ reads "RESet" res
    ∷ reads "SENSe" sens
    ∷ reads "SETup?" setuq
    ∷ reads "SHAPe" shap
    ∷ reads "SHOW?" showq
    ∷ reads "SINusoid" sin
    ∷ reads "SLEep" sle
    ∷ reads "SLOPe" slop
    ∷ reads "SLOPe?" slopq
    ∷ reads "SOURce" sour
    ∷ reads "SOURce?" sourq
    ∷ reads "SQUare" squ
    ∷ reads "STATE" state
    ∷ reads "STATE?" stateq
    ∷ reads "STAT" stat
    ∷ reads "STAT?" statq
    ∷ reads "STATUS" status
    ∷ reads "STORe" stor
    ∷ reads "SWEep" swe
    ∷ reads "SYSTem" syst
    ∷ reads "TCPip" tcp
    ∷ reads "TIME" time
    ∷ reads "TIME?" timeq
    ∷ reads "TINTerval" tint
    ∷ reads "TINTerval?" tintq
    ∷ reads "TRIangle" tri
    ∷ reads "TRIGger" trig
    ∷ reads "UINT" uint
    ∷ reads "UPPer" upp
    ∷ reads "UPPer?" uppq
    ∷ reads "USER" user
    ∷ reads "USER?" userq
    ∷ reads "VERSion?" versq
    ∷ reads "VOLTage" volt
    ∷ []

pub first_words-chosen : chosen first_words ≡ intended first_words
unfolding rule_for longest
first_words-chosen = refl

pub more_words-chosen : chosen more_words ≡ intended more_words
unfolding rule_for longest
more_words-chosen = refl

pub last_words-chosen : chosen last_words ≡ intended last_words
unfolding rule_for longest
last_words-chosen = refl
