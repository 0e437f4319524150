-- ===== src/Scanner/Keywords/Upper.antt =====
-- src/scanner.l: the rules of the common commands and of the words up to INTernal.
use cgr101_scpi.Prelude.{codes, List, [], ◌∷◌}
use cgr101_scpi.Scanner.Pattern.{word}
use cgr101_scpi.Scanner.Rule.{Rule, keyword, query, both}
use cgr101_scpi.Scanner.Token.{
  abor, all, asc, bin, cal, capq, cls, comm, conc, condq, conf, confq, contq, counq, coup, cw, dat,
  datq, dc, dcyc, dcycq, def, dig, echo, enab, enabq, err, errq, ese, eseq, esrq, even, evenq, ext,
  fetc, fix, form, formq, freq, freqq, func, funcq, hex, idnq, imm, incl, init, inp, int, integer,
  internal, opc, opcq, rst, sre, sreq, stbq, tstq, wai,
}

abbrev pub upper : List Rule
upper =
    keyword (word (codes "*CLS")) cls
    ∷ keyword (word (codes "*ESE")) ese
    ∷ keyword (query (word (codes "*ESE"))) eseq
    ∷ keyword (query (word (codes "*ESR"))) esrq
    ∷ keyword (query (word (codes "*IDN"))) idnq
    ∷ keyword (word (codes "*OPC")) opc
    ∷ keyword (query (word (codes "*OPC"))) opcq
    ∷ keyword (word (codes "*RST")) rst
    ∷ keyword (word (codes "*SRE")) sre
    ∷ keyword (query (word (codes "*SRE"))) sreq
    ∷ keyword (query (word (codes "*STB"))) stbq
    ∷ keyword (query (word (codes "*TST"))) tstq
    ∷ keyword (word (codes "*WAI")) wai
    ∷ keyword (both "ABOR" "ABORt") abor
    ∷ keyword (word (codes "ALL")) all
    ∷ keyword (both "ASC" "ASCii") asc
    ∷ keyword (both "BIN" "BINary") bin
    ∷ keyword (both "CAL" "CALibrate") cal
    ∷ keyword (query (both "CAP" "CAPability")) capq
    ∷ keyword (both "COMM" "COMMunicate") comm
    ∷ keyword (both "CONC" "CONCurrent") conc
    ∷ keyword (query (both "COND" "CONDition")) condq
    ∷ keyword (both "CONF" "CONFigure") conf
    ∷ keyword (query (both "CONF" "CONFigure")) confq
    ∷ keyword (query (both "CONT" "CONTrol")) contq
    ∷ keyword (query (both "COUN" "COUNt")) counq
    ∷ keyword (both "COUP" "COUPling") coup
    ∷ keyword (word (codes "CW")) cw
    ∷ keyword (both "DAT" "DATa") dat
    ∷ keyword (query (both "DAT" "DATa")) datq
    ∷ keyword (word (codes "DC")) dc
    ∷ keyword (both "DCYC" "DCYcle") dcyc
    ∷ keyword (query (both "DCYC" "DCYcLe")) dcycq
    ∷ keyword (word (codes "DEF")) def
    ∷ keyword (both "DIG" "DIGital") dig
    ∷ keyword (word (codes "ECHO")) echo
    ∷ keyword (both "ENAB" "ENABle") enab
    ∷ keyword (query (both "ENAB" "ENABle")) enabq
    ∷ keyword (both "ERR" "ERRor") err
    ∷ keyword (query (both "ERR" "ERRor")) errq
    ∷ keyword (both "EVEN" "EVENt") even
    ∷ keyword (query (both "EVEN" "EVENt")) evenq
    ∷ keyword (both "EXT" "EXTernal") ext
    ∷ keyword (both "FETC" "FETCh") fetc
    ∷ keyword (both "FIX" "FIXed") fix
    ∷ keyword (both "FORM" "FORMat") form
    ∷ keyword (query (both "FORM" "FORMat")) formq
    ∷ keyword (both "FREQ" "FREQuency") freq
    ∷ keyword (query (both "FREQ" "FREQuency")) freqq
    ∷ keyword (both "FUNC" "FUNCtion") func
    ∷ keyword (query (both "FUNC" "FUNCtion")) funcq
    ∷ keyword (both "HEX" "HEXadecimal") hex
    ∷ keyword (both "IMM" "IMMediate") imm
    ∷ keyword (both "INCL" "INCLUDE") incl
    ∷ keyword (both "INIT" "INITiate") init
    ∷ keyword (both "INP" "INPut") inp
    ∷ keyword (word (codes "INT")) int
    ∷ keyword (word (codes "INTeger")) integer
    ∷ keyword (word (codes "INTernal")) internal
    ∷ []
