-- ===== src/Parser/Prefix/Replay.antt =====
-- src/parser.c: what the parser is given after a semicolon.
use cgr101_scpi.Prelude.{
  ℕ, zero, suc, ◌+◌, ◌≡◌, ◌≢◌, refl, Bool, true, false, some, none, List, [], ◌∷◌, arith, Option,
  get_or, ◌==◌, ◌∙◌,
}
use native.Mathlib.Nat.{suc-add, zero-add}
use cgr101_scpi.Prelude.Fault.{◌>>=◌}
use cgr101_scpi.Parser.Prefix.{
  Parser, lex, prefix, replay_reset, replay_prefix, replay_active, loop, round, add_prefix,
}
use cgr101_scpi.Parser.Prefix.Actions.{Act, adds, separates, run_act, run_acts, push}

-- The tokens of the path from index `i` on.
unfoldable pub path_from : List ℕ → ℕ → ℕ → List ℕ
path_from ps i zero = []
path_from ps i (suc n) = get_or ps i 0 ∷ path_from ps (i + 1) n

-- A path with no empty slot.
abbrev pub Filled : List ℕ → ℕ → ℕ → Type 0
Filled ps i zero = Unit
Filled ps i (suc n) = (get_or ps i 0 ≢ 0) × Filled ps (i + 1) n

replay_more :
    (p : Parser)
    → p.active ≡ true
    → get_or p.prefix p.idx 0 ≢ 0
    → p.idx + 1 ≢ p.prefix_length
    → replay_prefix p ≡ some (get_or p.prefix p.idx 0, record p { idx = p.idx + 1 })
unfolding replay_prefix
replay_more p a f e = ground arith

replay_last :
    (p : Parser)
    → p.active ≡ true
    → get_or p.prefix p.idx 0 ≢ 0
    → p.idx + 1 ≡ p.prefix_length
    → replay_prefix p ≡ some (get_or p.prefix p.idx 0, replay_reset p)
unfolding replay_prefix
replay_last p a f e = ground arith

abbrev awake : Parser → Parser
awake p = record p { active = true; idx = 0 }

replay_active-awake :
    (p : Parser) → p.separator ≡ true → p.active ≡ false → p.idx ≡ 0 → replay_active p ≡ awake p
replay_active-awake p s a z = ground arith

-- The actions add to the path, and do nothing else.
abbrev pub AllAdd : List Act → Type 0
AllAdd [] = Unit
AllAdd (adds t ∷ acts) = AllAdd acts
AllAdd (separates value ∷ acts) = ⊥

module _ (colon : ℕ) {G : Type 0} (parse : G → ℕ → Option (Bool × G × List Act)) where
  -- The parser takes the tokens in turn and asks for more behind each; its actions add to the path
  -- alone, and it runs none behind the last token, which is a colon.
  abbrev pub Feeds : G → List ℕ → G → Type 0
  Feeds g [] g' = g ≡ g'
  Feeds g (t ∷ []) g' = parse g t ≡ some (true, g', [])
  Feeds g (t ∷ u ∷ ts) g' =
      (v : G) × (acts : List Act) × (parse g t ≡ some (true, v, acts))
      × AllAdd acts
      × Feeds v (u ∷ ts) g'

  add_prefix-active : (t : ℕ) (p : Parser) → p.active ≡ true → add_prefix colon p t ≡ some p
  unfolding add_prefix
  add_prefix-active t p a = ground arith

  -- While a path is replayed, adding to it changes nothing.
  run_acts-active :
      (acts : List Act) (p : Parser)
      → AllAdd acts
      → p.active ≡ true
      → run_acts colon acts p ≡ some p
  unfolding run_acts run_act
  run_acts-active [] p h a = refl
  run_acts-active (adds t ∷ acts) p h a = rw (add_prefix-active t p a) (run_acts-active acts p h a)
  run_acts-active (separates value ∷ acts) p h a = absurd h

  abbrev given : ℕ → G → ℕ → List ℕ → Parser → Option (Bool × G × Parser)
  given fuel g c cs p = do
    (more, g', p') ← push colon parse g c p
    elim more [
      | true ↦ loop colon (push colon parse) fuel lex c cs p' g'
      | false ↦ some (true, g', p')
    ]

  push-active :
      (p : Parser) (g g' : G) (t : ℕ) (acts : List Act)
      → parse g t ≡ some (true, g', acts)
      → run_acts colon acts p ≡ some p
      → push colon parse g t p ≡ some (true, g', p)
  unfolding push
  push-active p g g' t acts f r = rw (f, r) refl

  loop_replay :
      (fuel c : ℕ) (cs : List ℕ) (p p' : Parser) (g g' : G) (t : ℕ) (acts : List Act)
      → p.active ≡ true
      → replay_prefix p ≡ some (t, p')
      → parse g t ≡ some (true, g', acts)
      → run_acts colon acts p' ≡ some p'
      → loop colon (push colon parse) (suc fuel) prefix c cs p g
        ≡ loop colon (push colon parse) fuel prefix c cs p' g'
  unfolding loop
  loop_replay fuel c cs p p' g g' t acts a e f r = ground (arith, push-active p' g g' t acts f r)

  loop_suffix :
      (fuel c : ℕ) (cs : List ℕ) (p : Parser) (g : G)
      → loop colon (push colon parse) (suc fuel) prefix c cs (replay_reset p) g
        ≡ given fuel g c cs (replay_reset p)
  unfolding loop
  loop_suffix fuel c cs p g = refl

  replay_rest :
      (fuel n : ℕ) (c : ℕ) (cs : List ℕ) (p : Parser) (g g' : G)
      → p.active ≡ true
      → p.idx + suc n ≡ p.prefix_length
      → Filled p.prefix p.idx (suc n)
      → Feeds g (path_from p.prefix p.idx (suc n)) g'
      → loop colon (push colon parse) (suc n + suc fuel) prefix c cs p g
        ≡ given fuel g' c cs (replay_reset p)
  unfolding path_from run_acts
  replay_rest fuel zero c cs p g g' a e f h =
      rw (suc-add, zero-add)
        (loop_replay (suc fuel) c cs p (replay_reset p) g g' _ [] a
            (replay_last p a f.0 (omega arith)) h refl
          ∙ loop_suffix fuel c cs p g')
  replay_rest fuel (suc n) c cs p g g' a e f (v, acts, h, m, hs) =
      let p' = record p { idx = p.idx + 1 } in
      rw suc-add (
        loop_replay (suc n + suc fuel) c cs p p' g v _ acts a (replay_more p a f.0 (omega arith)) h
          (run_acts-active acts p' m a)
        ∙ replay_rest fuel n c cs p' v g' a (omega arith) f.1 hs)

  lex-prefix :
      (suffix c : ℕ) (cs : List ℕ) (p : Parser)
      → p.separator ≡ true
      → p.active ≡ false
      → p.idx ≡ 0
      → c ≢ colon
      → round colon (push colon parse) lex suffix (c ∷ cs) p
        ≡ round colon (push colon parse) prefix c cs (awake p)
  lex-prefix suffix c cs p s a z d = rw (replay_active-awake p s a z) (rw (neq c colon d))
    where
      neq : (x y : ℕ) → x ≢ y → (x == y) ≡ false
      neq x y h = ground arith

  loop_lex :
      (fuel suffix c : ℕ) (cs : List ℕ) (p : Parser) (g : G)
      → p.separator ≡ true
      → p.active ≡ false
      → p.idx ≡ 0
      → c ≢ colon
      → loop colon (push colon parse) (suc fuel) lex suffix (c ∷ cs) p g
        ≡ loop colon (push colon parse) (suc fuel) prefix c cs (awake p) g
  unfolding loop
  loop_lex fuel suffix c cs p g s a z d = rw (lex-prefix suffix c cs p s a z d)

  -- After a semicolon that follows a header path, where the next token is not a colon, and where
  -- the parser takes the tokens of the path, asks for more behind each, and meanwhile only adds to
  -- the path (and not behind the last colon of it): the parser is given the whole path in order,
  -- which leaves the path as it is and forgets the semicolon, and then the token that followed the
  -- semicolon, whatever it does with that; if it asks for more, the loop reads on behind it. The
  -- values of tokens are left out.
  pub replay_path :
      (fuel n suffix c : ℕ) (cs : List ℕ) (p : Parser) (g g' : G)
      → p.separator ≡ true
      → p.active ≡ false
      → p.idx ≡ 0
      → p.prefix_length ≡ suc n
      → Filled p.prefix 0 (suc n)
      → Feeds g (path_from p.prefix 0 (suc n)) g'
      → c ≢ colon
      → loop colon (push colon parse) (suc n + suc fuel) lex suffix (c ∷ cs) p g ≡ (do
        (more, g'', p') ← push colon parse g' c (replay_reset p)
        elim more [
          | true ↦ loop colon (push colon parse) fuel lex c cs p' g''
          | false ↦ some (true, g'', p')
        ])
  replay_path fuel n suffix c cs p g g' s a z l f h d = rw suc-add (
      loop_lex (n + suc fuel) suffix c cs p g s a z d
      ∙ (rw suc-add at (replay_rest fuel n c cs (awake p) g g' refl (omega arith) f h)))

-- After a semicolon that follows no header path, as between two common commands, any token but a
-- colon fails the assertion on the replayed token.
pub replay_no_path :
    (colon : ℕ) {G : Type 0} (take_token : G → ℕ → Parser → Option (Bool × G × Parser))
    (fuel suffix c : ℕ) (cs : List ℕ) (p : Parser) (g : G)
    → p.separator ≡ true
    → get_or p.prefix p.idx 0 ≡ 0
    → c ≢ colon
    → loop colon take_token (suc fuel) lex suffix (c ∷ cs) p g ≡ none
unfolding loop replay_prefix
replay_no_path colon take_token fuel suffix c cs p g s e d = ground arith
