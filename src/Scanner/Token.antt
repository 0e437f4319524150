-- ===== src/Scanner/Token.antt =====
-- The tokens that src/scpi.y declares, in its order. `none_word` is its NONE, `echo` its ECHO_ and
-- `eof` its EOF_.

pub data Token : Type 0 where
  ident num lparen rparen comma semis colon dash at other abor all asc bin cal capq cls comm conc
        condq conf confq contq counq coup cw dat datq dc dcyc dcycq def dig echo enab enabq err errq
        ese eseq esrq even evenq ext fetc fix float form formq freq freqq func funcq hex idnq imm
        init inp incl int integer internal lev levq loc locq low lowq max meas min neg nextq
        none_word oct off offs offsq on opc opcq oper operq oref pack poin poinq pos pres ptp ptpq
        puls ques quesq quit rand rang rangq read real res rst sens setuq shap showq sin sle slop
        slopq sour sourq sre sreq stat statq state stateq status stor stbq string squ swe syst tcp
        time timeq tint tintq tri trig tstq uint upp uppq user userq versq volt wai eof :
      Token
