-- ===== src/Cfg/Divergence.antt =====
-- Which statements leave no last node, and that control never goes on behind those.
use retro_doc.Prelude.{
  ℕ, List, [], ◌∷◌, ◌++◌, ◌≡◌, refl, ap, ◌∙◌, Bool, true, false, ◌&&◌, is_empty, if◌then◌else◌,
  Bool-cases, ◌⊎◌, inl, inr, arith,
}
use retro_doc.Java.Syntax.{Stmt, Stmts, Catches, no_catch, catch}
use retro_doc.Cfg.Graph.{Env, Build, is_nil, first_or, or_switch}
use retro_doc.Cfg.Statement.{process_statement, process_block, process_rest, process_catches}

unfoldable mutual
  -- Control may go on behind the statement, as far as its syntax tells: a condition goes either way,
  -- a loop or a `switch` may be left without a `return`, a `try` ends with its block or with a catch,
  -- and then its `finally`.
  pub Completes : Stmt → Type 0
  Completes (Stmt.if_then line c t) = Unit {0}
  Completes (Stmt.if_else line c t e) = Completes t ⊎ Completes e
  Completes (Stmt.while_loop line c body) = Unit {0}
  Completes (Stmt.for_loop line c body) = Unit {0}
  Completes (Stmt.try_catch line blk catches fin) =
      (CompletesBlock blk ⊎ CompletesCatch catches) × CompletesBlock fin
  Completes (Stmt.switch line e cases) = Unit {0}
  Completes (Stmt.return_value line e) = ⊥
  Completes (Stmt.block ss) = CompletesBlock ss
  Completes (Stmt.expression line e) = Unit {0}
  Completes (Stmt.local_variable line ty ds) = Unit {0}
  Completes (Stmt.other_stmt line c) = Unit {0}

  -- Every statement of the block, one after another.
  CompletesBlock : Stmts → Type 0
  CompletesBlock Stmts.nil = Unit {0}
  CompletesBlock (Stmts.cons s ss) = Completes s × CompletesBlock ss

  CompletesCatch : Catches → Type 0
  CompletesCatch no_catch = ⊥
  CompletesCatch (catch line parameter blk rest) = CompletesBlock blk ⊎ CompletesCatch rest

unfoldable mutual
  unfolding is_nil

  -- The builder's approximation of a statement that control never leaves at its end: loops and
  -- switches never are one, an `if` with both branches, a `try` by its `finally` if that is not empty.
  pub diverges : Stmt → Bool
  diverges (Stmt.if_then line c t) = false
  diverges (Stmt.if_else line c t e) = diverges t && diverges e
  diverges (Stmt.while_loop line c body) = false
  diverges (Stmt.for_loop line c body) = false
  diverges (Stmt.try_catch line blk catches fin) =
      if is_nil fin
      then diverges_block blk false && diverges_catches catches
      else diverges_block fin false
  diverges (Stmt.switch line e cases) = false
  diverges (Stmt.return_value line e) = true
  diverges (Stmt.block ss) = diverges_block ss false
  diverges (Stmt.expression line e) = false
  diverges (Stmt.local_variable line ty ds) = false
  diverges (Stmt.other_stmt line c) = false

  -- The last statement decides, and for no statement what stands before it.
  pub diverges_block : Stmts → Bool → Bool
  diverges_block Stmts.nil before = before
  diverges_block (Stmts.cons s ss) before = diverges_block ss (diverges s)

  pub diverges_catches : Catches → Bool
  diverges_catches no_catch = true
  diverges_catches (catch line parameter blk rest) =
      diverges_block blk false && diverges_catches rest

is_empty-append {ℓ} :
    {A : Type ℓ} (xs ys : List A) → is_empty (xs ++ ys) ≡ (is_empty xs && is_empty ys)
is_empty-append [] ys = refl
is_empty-append (x ∷ xs) ys = refl

and_step : {a c e : Bool} (l d : Bool) → a ≡ (l && c) → c ≡ e → (a && d) ≡ (l && (e && d))
and_step l d p q = ground arith

module _ (env : Env) where
  or_switch-not_empty : (c : ℕ) (r : List ℕ × Build env) → is_empty (or_switch env c r).0 ≡ false
  unfolding or_switch
  or_switch-not_empty c ([], b) = refl
  or_switch-not_empty c (n ∷ ns, b) = refl

  mutual
    unfolding process_statement diverges

    -- A statement has no last node exactly when it diverges, whatever the entries are.
    statement_last :
        (s : Stmt) (es : List ℕ) (x : ℕ) (b : Build env)
        → is_empty (process_statement env s es x b).0 ≡ diverges s
    statement_last (Stmt.if_then line c t) es x b =
        is_empty-append (process_statement env t _ x _).0 _ ∙ ground arith
    statement_last (Stmt.if_else line c t e) es x b =
        is_empty-append (process_statement env t _ x _).0 _
        ∙ cc (statement_last t _ x _, statement_last e _ x _)
    statement_last (Stmt.while_loop line c body) es x b = refl
    statement_last (Stmt.for_loop line _ body) es x b = refl
    statement_last (Stmt.try_catch line blk catches fin) es x b =
        let p = block_last blk (first_or es x) x b in
        let t = process_block env blk (first_or es x) x b in
        let q = catches_last catches es x t.0 t.1 in
        elim (Bool-cases (is_nil fin)) [
          | inl e ↦ rw e (cc (p, q))
          | inr e ↦ rw e (block_last fin _ x _)
        ]
    statement_last (Stmt.switch line e cases) es x b = or_switch-not_empty _ _
    statement_last (Stmt.return_value line e) es x b = refl
    statement_last (Stmt.block ss) es x b = block_last ss (first_or es x) x b
    statement_last (Stmt.expression line e) es x b = refl
    statement_last (Stmt.local_variable line ty ds) es x b = refl
    statement_last (Stmt.other_stmt line c) es x b = refl

    block_last :
        (ss : Stmts) (entry x : ℕ) (b : Build env)
        → is_empty (process_block env ss entry x b).0 ≡ diverges_block ss false
    block_last Stmts.nil entry x b = refl
    block_last (Stmts.cons s ss) entry x b =
        rest_last ss _ x _ ∙ ap (diverges_block ss) (statement_last s (entry ∷ []) x b)

    rest_last :
        (ss : Stmts) (es : List ℕ) (x : ℕ) (b : Build env)
        → is_empty (process_rest env ss es x b).0 ≡ diverges_block ss (is_empty es)
    rest_last Stmts.nil es x b = refl
    rest_last (Stmts.cons s ss) es x b =
        rest_last ss _ x _ ∙ ap (diverges_block ss) (statement_last s es x b)

    catches_last :
        (cs : Catches) (es : List ℕ) (x : ℕ) (last : List ℕ) (b : Build env)
        → is_empty (process_catches env cs es x last b).0 ≡ (is_empty last && diverges_catches cs)
    catches_last no_catch es x last b = ground arith
    catches_last (catch line parameter blk rest) es x last b =
        catches_last rest es x (last ++ _) _
        ∙ and_step (is_empty last) (diverges_catches rest) (is_empty-append last _)
            (block_last blk _ x _)

never : false ≡ true → ⊥
never h = ground (arith, h)

and_left : (a c : Bool) → (a && c) ≡ true → a ≡ true
and_left a c h = ground (arith, h)

and_right : (a c : Bool) → (a && c) ≡ true → c ≡ true
and_right a c h = ground (arith, h)

mutual
  unfolding diverges Completes

  diverges-Completes : (s : Stmt) → diverges s ≡ true → ¬ Completes s
  diverges-Completes (Stmt.if_then line c t) h d = never h
  diverges-Completes (Stmt.if_else line c t e) h (inl d) = diverges-Completes t (and_left _ _ h) d
  diverges-Completes (Stmt.if_else line c t e) h (inr d) = diverges-Completes e (and_right _ _ h) d
  diverges-Completes (Stmt.while_loop line c body) h d = never h
  diverges-Completes (Stmt.for_loop line c body) h d = never h
  diverges-Completes (Stmt.try_catch line blk catches fin) h (d, f) =
      elim (Bool-cases (is_nil fin)) [
        | inl e ↦ elim d [
          | inl k ↦ never (diverges_block-Completes blk false (and_left _ _ (rw e at h)) k)
          | inr k ↦ diverges_catches-Completes catches (and_right _ _ (rw e at h)) k
        ]
        | inr e ↦ never (diverges_block-Completes fin false (rw e at h) f)
      ]
  diverges-Completes (Stmt.switch line e cases) h d = never h
  diverges-Completes (Stmt.return_value line e) h d = d
  diverges-Completes (Stmt.block ss) h d = never (diverges_block-Completes ss false h d)
  diverges-Completes (Stmt.expression line e) h d = never h
  diverges-Completes (Stmt.local_variable line ty ds) h d = never h
  diverges-Completes (Stmt.other_stmt line c) h d = absurd (ground (arith, h))

  diverges_block-Completes :
      (ss : Stmts) (before : Bool)
      → diverges_block ss before ≡ true
      → CompletesBlock ss
      → before ≡ true
  diverges_block-Completes Stmts.nil before h d = h
  diverges_block-Completes (Stmts.cons s ss) before h (d, ds) =
      absurd (diverges-Completes s (diverges_block-Completes ss (diverges s) h ds) d)

  diverges_catches-Completes : (cs : Catches) → diverges_catches cs ≡ true → ¬ CompletesCatch cs
  diverges_catches-Completes no_catch h d = d
  diverges_catches-Completes (catch line parameter blk rest) h (inl d) =
      never (diverges_block-Completes blk false (and_left _ _ h) d)
  diverges_catches-Completes (catch line parameter blk rest) h (inr d) =
      diverges_catches-Completes rest (and_right _ _ h) d
