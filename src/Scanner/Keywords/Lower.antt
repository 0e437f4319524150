-- ===== src/Scanner/Keywords/Lower.antt =====
-- src/scanner.l: the rules of the words from LEVel on.
use cgr101_scpi.Prelude.{codes, List, [], ◌∷◌}
use cgr101_scpi.Scanner.Pattern.{word}
use cgr101_scpi.Scanner.Rule.{Rule, keyword, query, both}
use cgr101_scpi.Scanner.Token.{
  lev, levq, loc, locq, low, lowq, max, meas, min, neg, nextq, none_word, oct, off, offs, offsq, on,
  oper, operq, oref, pack, poin, poinq, pos, pres, ptp, ptpq, puls, ques, quesq, quit, rand, rang,
  rangq, read, real, res, sens, setuq, shap, showq, sin, sle, slop, slopq, sour, sourq, squ, stat,
  state, stateq, statq, status, stor, swe, syst, tcp, time, timeq, tint, tintq, tri, trig, uint,
  upp, uppq, user, userq, versq, volt,
}

abbrev pub lower : List Rule
lower =
    keyword (both "LEV" "LEVel") lev
    ∷ keyword (query (both "LEV" "LEVel")) levq
    ∷ keyword (both "LOC" "LOCation") loc
    ∷ keyword (query (both "LOC" "LOCation")) locq
    ∷ keyword (both "LOW" "LOWer") low
    ∷ keyword (query (both "LOW" "LOWer")) lowq
    ∷ keyword (word (codes "MAX")) max
    ∷ keyword (both "MEAS" "MEASure") meas
    ∷ keyword (word (codes "MIN")) min
    ∷ keyword (both "NEG" "NEGative") neg
    ∷ keyword (query (word (codes "NEXT"))) nextq
    ∷ keyword (both "OCT" "OCTal") oct
    ∷ keyword (word (codes "NONE")) none_word
    ∷ keyword (word (codes "OFF")) off
    ∷ keyword (both "OFFS" "OFFSet") offs
    ∷ keyword (query (both "OFFS" "OFFSet")) offsq
    ∷ keyword (word (codes "ON")) on
    ∷ keyword (both "OPER" "OPERation") oper
    ∷ keyword (query (both "OPER" "OPERation")) operq
    ∷ keyword (both "OREF" "OREFERENCE") oref
    ∷ keyword (word (codes "PACK")) pack
    ∷ keyword (both "POIN" "POINts") poin
    ∷ keyword (query (both "POIN" "POINts")) poinq
    ∷ keyword (both "POS" "POSitive") pos
    ∷ keyword (both "PRES" "PRESet") pres
    ∷ keyword (both "PTP" "PTPeak") ptp
    ∷ keyword (query (both "PTP" "PTPeak")) ptpq
    ∷ keyword (both "PULS" "PULSe") puls
    ∷ keyword (both "QUES" "QUEStionable") ques
    ∷ keyword (query (both "QUES" "QUEStionable")) quesq
    ∷ keyword (word (codes "QUIT")) quit
    ∷ keyword (both "RAND" "RANDom") rand
    ∷ keyword (both "RANG" "RANGe") rang
    ∷ keyword (query (both "RANG" "RANGe")) rangq
    ∷ keyword (word (codes "READ")) read
    ∷ keyword (word (codes "REAL")) real
    ∷ keyword (both "RES" "RESet") res
    ∷ keyword (both "SENS" "SENSe") sens
    ∷ keyword (query (both "SET" "SETup")) setuq
    ∷ keyword (both "SHAP" "SHAPe") shap
    ∷ keyword (query (word (codes "SHOW"))) showq
    ∷ keyword (both "SIN" "SINusoid") sin
    ∷ keyword (both "SLE" "SLEep") sle
    ∷ keyword (both "SLOP" "SLOPe") slop
    ∷ keyword (query (both "SLOP" "SLOPe")) slopq
    ∷ keyword (both "SOUR" "SOURce") sour
    ∷ keyword (query (both "SOUR" "SOURce")) sourq
    ∷ keyword (both "SQU" "SQUare") squ
    ∷ keyword (word (codes "STATe")) state
    ∷ keyword (query (word (codes "STATe"))) stateq
    ∷ keyword (word (codes "STAT")) stat
    ∷ keyword (query (word (codes "STAT"))) statq
    ∷ keyword (word (codes "STATUS")) status
    ∷ keyword (both "STOR" "STORe") stor
    ∷ keyword (both "SWE" "SWEep") swe
    ∷ keyword (both "SYST" "SYSTem") syst
    ∷ keyword (both "TCP" "TCPip") tcp
    ∷ keyword (word (codes "TIME")) time
    ∷ keyword (query (word (codes "TIME"))) timeq
    ∷ keyword (both "TINT" "TINTerval") tint
    ∷ keyword (query (both "TINT" "TINTerval")) tintq
    ∷ keyword (both "TRI" "TRIangle") tri
    ∷ keyword (both "TRIG" "TRIGger") trig
    ∷ keyword (word (codes "UINT")) uint
    ∷ keyword (both "UPP" "UPPer") upp
    ∷ keyword (query (both "UPP" "UPPer")) uppq
    ∷ keyword (word (codes "USER")) user
    ∷ keyword (query (word (codes "USER"))) userq
    ∷ keyword (query (both "VERS" "VERSion")) versq
    ∷ keyword (both "VOLT" "VOLTage") volt
    ∷ []
