-- ===== src/Cfg/Size.antt =====
-- How many nodes a statement gives to the CFG, read off the syntax, and that the builder inserts
-- exactly those.
use retro_doc.Prelude.{
  ℕ, suc, ◌+◌, Text, text, Option, List, [], ◌∷◌, ◌++◌, ◌≡◌, refl, sym, subst, ◌∙◌, Bool-cases,
  if◌then◌else◌, inl, inr, arith,
}
use retro_doc.Java.Syntax.{Expr, Stmt, Stmts, Catches, Cases, no_catch, catch, no_case, case}
use retro_doc.Cfg.Graph.{
  Env, Build, enter, add_edge, add_edges_from, add_edge_to_first, close_loop, or_switch, is_nil,
  first_or, return_label, case_label, case_edge_label, process_simple,
}
use retro_doc.Cfg.Label.{label, stmt_label, control_label, catch_type}
use retro_doc.Cfg.Statement.{
  process_statement, process_block, process_rest, process_catches, process_cases,
}
use retro_doc.Cfg.Outcomes.{case_body}

-- One node for an `if`, `while`, `for`, `switch`, `case`, `catch`, non-empty `finally`, `return` and
-- other statement that is neither a block nor a `try`; none for a block, a `try`, an empty `finally`
-- and what another statement such as `do` holds.
unfoldable mutual
  unfolding is_nil

  pub size : Stmt → ℕ
  size (Stmt.if_then line c t) = 1 + size t
  size (Stmt.if_else line c t e) = 1 + size t + size e
  size (Stmt.while_loop line c body) = 1 + size body
  size (Stmt.for_loop line c body) = 1 + size body
  size (Stmt.try_catch line blk catches fin) =
      size_block blk + size_catches catches + (if is_nil fin then 0 else 1 + size_block fin)
  size (Stmt.switch line e cases) = 1 + size_cases cases
  size (Stmt.return_value line e) = 1
  size (Stmt.block ss) = size_block ss
  size (Stmt.expression line e) = 1
  size (Stmt.local_variable line ty ds) = 1
  size (Stmt.other_stmt line c) = 1

  pub size_block : Stmts → ℕ
  size_block Stmts.nil = 0
  size_block (Stmts.cons s ss) = size s + size_block ss

  pub size_catches : Catches → ℕ
  size_catches no_catch = 0
  size_catches (catch line parameter blk rest) = 1 + size_block blk + size_catches rest

  pub size_cases : Cases → ℕ
  size_cases no_case = 0
  size_cases (case line value ss rest) = 1 + size_block ss + size_cases rest

abbrev if_text : Expr → Text
if_text c = text "if (" ++ label c ++ text ")"

module _ (env : Env) where
  add_edges_from-counter :
      (ns : List ℕ) (dst : ℕ) (label : Text) (b : Build env)
      → (add_edges_from env ns dst label b).counter ≡ b.counter
  unfolding add_edges_from
  add_edges_from-counter [] dst label b = refl
  add_edges_from-counter (n ∷ ns) dst label b =
      add_edges_from-counter ns dst label (add_edge env n dst label b)

  add_edge_to_first-counter :
      (src : ℕ) (ns : List ℕ) (label : Text) (b : Build env)
      → (add_edge_to_first env src ns label b).counter ≡ b.counter
  unfolding add_edge_to_first
  add_edge_to_first-counter src [] label b = refl
  add_edge_to_first-counter src (n ∷ ns) label b = refl

  enter-counter :
      (line : Option ℕ) (ty label kind edge_label : Text) (es : List ℕ) (b : Build env)
      → (enter env line ty label kind edge_label es b).1.counter ≡ suc b.counter
  unfolding enter
  enter-counter line ty label kind edge_label es b =
      add_edges_from-counter es b.counter edge_label _

  close_loop-counter :
      (c : ℕ) (r : List ℕ × Build env) → (close_loop env c r).1.counter ≡ r.1.counter
  unfolding close_loop
  close_loop-counter c (ns, b) =
      add_edges_from-counter ns c (text "loop") _ ∙ add_edge_to_first-counter c ns (text "true") b

  or_switch-counter : (c : ℕ) (r : List ℕ × Build env) → (or_switch env c r).1.counter ≡ r.1.counter
  unfolding or_switch
  or_switch-counter c ([], b) = refl
  or_switch-counter c (n ∷ ns, b) = refl

  process_simple-counter :
      (s : Stmt) (line : Option ℕ) (es : List ℕ) (b : Build env)
      → (process_simple env s line es b).1.counter ≡ b.counter + 1
  unfolding process_simple
  process_simple-counter s line es b =
      omega (arith, enter-counter line (text "statement") (stmt_label s) (text "stmt") [] es b)

  mutual
    unfolding process_statement size

    statement-counter :
        (s : Stmt) (es : List ℕ) (x : ℕ) (b : Build env)
        → (process_statement env s es x b).1.counter ≡ b.counter + size s
    statement-counter (Stmt.if_then line c t) es x b =
        let n = enter env line (text "branch") (if_text c) (text "if") [] es b in
        let r = process_statement env t (n.0 ∷ []) x n.1 in
        omega (
          arith,
          enter-counter line (text "branch") (if_text c) (text "if") [] es b,
          statement-counter t (n.0 ∷ []) x n.1,
          add_edge_to_first-counter n.0 r.0 (text "true") r.1,
        )
    statement-counter (Stmt.if_else line c t e) es x b =
        let n = enter env line (text "branch") (if_text c) (text "if") [] es b in
        let r = process_statement env t (n.0 ∷ []) x n.1 in
        let b3 = add_edge_to_first env n.0 r.0 (text "true") r.1 in
        let r' = process_statement env e (n.0 ∷ []) x b3 in
        omega (
          arith,
          enter-counter line (text "branch") (if_text c) (text "if") [] es b,
          statement-counter t (n.0 ∷ []) x n.1,
          add_edge_to_first-counter n.0 r.0 (text "true") r.1,
          statement-counter e (n.0 ∷ []) x b3,
          add_edge_to_first-counter n.0 r'.0 (text "false") r'.1,
        )
    statement-counter (Stmt.while_loop line c body) es x b =
        let t = text "while (" ++ label c ++ text ")" in
        let n = enter env line (text "branch") t (text "while") [] es b in
        let r = process_statement env body (n.0 ∷ []) x n.1 in
        omega (
          arith,
          enter-counter line (text "branch") t (text "while") [] es b,
          statement-counter body (n.0 ∷ []) x n.1,
          close_loop-counter n.0 r,
        )
    statement-counter (Stmt.for_loop line control body) es x b =
        let t = text "for (" ++ control_label control ++ text ")" in
        let n = enter env line (text "branch") t (text "for") [] es b in
        let r = process_statement env body (n.0 ∷ []) x n.1 in
        omega (
          arith,
          enter-counter line (text "branch") t (text "for") [] es b,
          statement-counter body (n.0 ∷ []) x n.1,
          close_loop-counter n.0 r,
        )
    statement-counter (Stmt.try_catch line blk catches fin) es x b =
        let t = process_block env blk (first_or es x) x b in
        let r = process_catches env catches es x t.0 t.1 in
        let n = enter env line (text "statement") (text "finally") (text "finally") [] r.0 r.1 in
        let before = block-counter blk (first_or es x) x b in
        let handled = catches-counter catches es x t.0 t.1 in
        let entered =
          enter-counter line (text "statement") (text "finally") (text "finally") [] r.0 r.1 in
        let finished = block-counter fin n.0 x n.1 in
        elim (Bool-cases (is_nil fin)) [
          | inl e ↦ rw e (omega (arith, before, handled))
          | inr e ↦ rw e (omega (arith, before, handled, entered, finished))
        ]
    statement-counter (Stmt.switch line e cases) es x b =
        let t = text "switch (" ++ label e ++ text ")" in
        let n = enter env line (text "branch") t (text "switch") [] es b in
        let r = process_cases env cases n.0 x [] n.1 in
        omega (
          arith,
          enter-counter line (text "branch") t (text "switch") [] es b,
          cases-counter cases n.0 x [] n.1,
          or_switch-counter n.0 r,
        )
    statement-counter (Stmt.return_value line e) es x b =
        omega
          (arith, enter-counter line (text "statement") (return_label e) (text "return") [] es b)
    statement-counter (Stmt.block ss) es x b = block-counter ss (first_or es x) x b
    statement-counter (Stmt.expression line e) es x b =
        process_simple-counter (Stmt.expression line e) line es b
    statement-counter (Stmt.local_variable line ty ds) es x b =
        process_simple-counter (Stmt.local_variable line ty ds) line es b
    statement-counter (Stmt.other_stmt line c) es x b =
        process_simple-counter (Stmt.other_stmt line c) line es b

    pub block-counter :
        (ss : Stmts) (entry x : ℕ) (b : Build env)
        → (process_block env ss entry x b).1.counter ≡ b.counter + size_block ss
    block-counter Stmts.nil entry x b = omega arith
    block-counter (Stmts.cons s ss) entry x b =
        let r = process_statement env s (entry ∷ []) x b in
        omega (arith, statement-counter s (entry ∷ []) x b, rest-counter ss r.0 x r.1)

    rest-counter :
        (ss : Stmts) (es : List ℕ) (x : ℕ) (b : Build env)
        → (process_rest env ss es x b).1.counter ≡ b.counter + size_block ss
    rest-counter Stmts.nil es x b = omega arith
    rest-counter (Stmts.cons s ss) es x b =
        let r = process_statement env s es x b in
        omega (arith, statement-counter s es x b, rest-counter ss r.0 x r.1)

    catches-counter :
        (cs : Catches) (es : List ℕ) (x : ℕ) (last : List ℕ) (b : Build env)
        → (process_catches env cs es x last b).1.counter ≡ b.counter + size_catches cs
    catches-counter no_catch es x last b = omega arith
    catches-counter (catch line parameter blk rest) es x last b =
        let t = text "catch (" ++ catch_type parameter ++ text ")" in
        let n = enter env line (text "statement") t (text "catch") (text "exception") es b in
        let r = process_block env blk n.0 x n.1 in
        omega (
          arith,
          enter-counter line (text "statement") t (text "catch") (text "exception") es b,
          block-counter blk n.0 x n.1,
          catches-counter rest es x (last ++ r.0) r.1,
        )

    cases-counter :
        (cs : Cases) (switch x : ℕ) (last : List ℕ) (b : Build env)
        → (process_cases env cs switch x last b).1.counter ≡ b.counter + size_cases cs
    cases-counter no_case switch x last b = omega arith
    cases-counter (case line value ss rest) switch x last b =
        let ty = text "statement" in
        let l = case_label value in
        let el = case_edge_label value in
        let n = enter env line ty l (text "case") el (switch ∷ []) b in
        let r = process_block env ss n.0 x n.1 in
        subst
          (λ (p : List ℕ × Build env).
            (process_cases env rest switch x (last ++ p.0) p.1).1.counter
            ≡ b.counter + size_cases (case line value ss rest))
          (sym (case_body env 0 x ss n.0 n.1))
          (omega (
            arith,
            enter-counter line ty l (text "case") el (switch ∷ []) b,
            block-counter ss n.0 x n.1,
            cases-counter rest switch x (last ++ r.0) r.1,
          ))
