-- ===== src/Cfg/Outcomes.antt =====
-- Every statement handler of the CFG builder has an outcome: its edges join nodes that exist, and
-- lead to EXIT or into the body.
use retro_doc.Prelude.{
  ℕ, ◌≤◌, ◌<◌, Text, text, Option, List, [], ◌∷◌, ◌++◌, ◌≡◌, refl, inl, inr, Bool-cases,
  if◌then◌else◌, arith,
}
use retro_doc.Java.Syntax.{Stmt, Stmts, Catches, Cases, no_catch, catch, no_case, case}
use retro_doc.Cfg.Graph.{
  Env, Build, enter, is_nil, process_simple, first_or, return_label, case_label, case_edge_label,
}
use retro_doc.Cfg.Label.{label, control_label, catch_type}
use retro_doc.Cfg.Statement.{
  process_statement, process_block, process_rest, process_catches, process_cases,
}
use retro_doc.Cfg.Trace.{edge, done, Outcome, enter-Outcome}
use retro_doc.Cfg.Compose.{
  Below, Below-mono, idle, seq, retarget, further, then_part, else_part, narrow, first_or-Below,
  branch-Outcome, close_loop-Outcome, or_switch-Outcome,
}

module _ (env : Env) (lo exit_id : ℕ) where
  abbrev Out : Build env → List ℕ → List ℕ × Build env → Type 0
  Out = Outcome env lo exit_id

  process_simple-Outcome :
      (stmt : Stmt) (line : Option ℕ) (es : List ℕ) (b : Build env)
      → lo ≤ b.counter
      → Below b.counter es
      → Out b es (process_simple env stmt line es b)
  unfolding process_simple
  process_simple-Outcome stmt line es b low h =
      (enter-Outcome env lo exit_id line _ _ _ [] es b low h).0

  -- A case without statements is no exception: an empty block ends where it starts.
  pub case_body :
      (ss : Stmts) (n : ℕ) (b : Build env)
      → (if is_nil ss then (n ∷ [], b) else process_block env ss n exit_id b)
        ≡ process_block env ss n exit_id b
  unfolding is_nil process_block
  case_body Stmts.nil n b = refl
  case_body (Stmts.cons s ss) n b = refl

  -- The step from the new node `c` of a handler to what runs from it.
  from_node :
      (line : Option ℕ) (ty label kind edge_label : Text) (es : List ℕ) (b : Build env)
      → lo ≤ b.counter
      → exit_id < b.counter
      → Below b.counter es
      → {r : List ℕ × Build env}
      → (let e = enter env line ty label kind edge_label es b in
          lo ≤ e.0
          → lo ≤ e.1.counter
          → exit_id < e.1.counter
          → e.0 < e.1.counter
          → Out e.1 (e.0 ∷ []) r)
      → Out b es r
  from_node line ty label kind edge_label es b low ex h rest =
      let e = enter env line ty label kind edge_label es b in
      let o = enter-Outcome env lo exit_id line ty label kind edge_label es b low h in
      seq env lo exit_id o.0 (
        rest (omega (arith, o.1)) (omega (arith, o.2)) (omega (arith, o.2))
          (omega (arith, o.1, o.2)))

  mutual
    unfolding process_statement

    pub statement-Outcome :
        (s : Stmt) (es : List ℕ) (b : Build env)
        → lo ≤ b.counter
        → exit_id < b.counter
        → Below b.counter es
        → Out b es (process_statement env s es exit_id b)
    statement-Outcome (Stmt.if_then line c t) es b low ex h =
        from_node line (text "branch") (text "if (" ++ label c ++ text ")") (text "if") [] es b low
          ex h
          λ lc lb xb cb.
            then_part env lo exit_id _ cb lc (statement-Outcome t (_ ∷ []) _ lb xb (cb, tt))
    statement-Outcome (Stmt.if_else line c t e) es b low ex h =
        from_node line (text "branch") (text "if (" ++ label c ++ text ")") (text "if") [] es b low
          ex h
          λ lc lb xb cb.
            let p = statement-Outcome t (_ ∷ []) _ lb xb (cb, tt) in
            let q = branch-Outcome env lo exit_id _ (text "true") cb lc p in
            else_part env lo exit_id _ cb lc p (
              statement-Outcome e (_ ∷ []) _ (omega (arith, q.grows)) (omega (arith, q.grows))
                (omega (arith, q.grows), tt))
    statement-Outcome (Stmt.while_loop line c body) es b low ex h =
        from_node line (text "branch") (text "while (" ++ label c ++ text ")") (text "while") [] es
          b low ex h
          λ lc lb xb cb.
            close_loop-Outcome env lo exit_id _ cb lc (statement-Outcome body _ _ lb xb (cb, tt))
    statement-Outcome (Stmt.for_loop line control body) es b low ex h =
        from_node line (text "branch") (text "for (" ++ control_label control ++ text ")")
          (text "for") [] es b low ex h
          λ lc lb xb cb.
            close_loop-Outcome env lo exit_id _ cb lc (statement-Outcome body _ _ lb xb (cb, tt))
    statement-Outcome (Stmt.try_catch line blk catches fin) es b low ex h =
        let first = first_or es exit_id in
        let p = block-Outcome blk first b low ex (first_or-Below env lo exit_id es ex h) in
        let t = process_block env blk first exit_id b in
        let q =
          catches-Outcome catches es t.0 t.1 (omega (arith, p.grows)) (omega (arith, p.grows))
            (Below-mono es p.grows h) p.below in
        let r = process_catches env catches es exit_id t.0 t.1 in
        let pq = narrow env lo exit_id es (seq env lo exit_id p q) in
        let fin_outcome =
          from_node line (text "statement") (text "finally") (text "finally") [] r.0 r.1
            (omega (arith, pq.grows)) (omega (arith, pq.grows)) pq.below
            λ lc lb xb cb. block-Outcome fin _ _ lb xb (cb, tt) in
        elim (Bool-cases (is_nil fin)) [
          | inl e ↦ rw e pq
          | inr e ↦ rw e (seq env lo exit_id pq fin_outcome)
        ]
    statement-Outcome (Stmt.switch line e cases) es b low ex h =
        from_node line (text "branch") (text "switch (" ++ label e ++ text ")") (text "switch") []
          es b low ex h
          λ lc lb xb cb.
            let p = cases-Outcome cases _ [] _ lb xb cb tt in
            or_switch-Outcome env lo exit_id _ _ (omega (arith, p.grows)) lc
              (retarget env lo exit_id p (λ _. tt))
    statement-Outcome (Stmt.return_value line e) es b low ex h =
        from_node line (text "statement") (return_label e) (text "return") [] es b low ex h
          λ lc lb xb cb. record {
            trace = edge _ exit_id [] cb xb (inl refl) done;
            grows = omega arith;
            below = tt;
            targets = λ _. tt;
          }
    statement-Outcome (Stmt.block ss) es b low ex h =
        narrow env lo exit_id es
          (block-Outcome ss (first_or es exit_id) b low ex (first_or-Below env lo exit_id es ex h))
    statement-Outcome (Stmt.expression line e) es b low ex h =
        process_simple-Outcome (Stmt.expression line e) line es b low h
    statement-Outcome (Stmt.local_variable line ty ds) es b low ex h =
        process_simple-Outcome (Stmt.local_variable line ty ds) line es b low h
    statement-Outcome (Stmt.other_stmt line c) es b low ex h =
        process_simple-Outcome (Stmt.other_stmt line c) line es b low h

    pub block-Outcome :
        (ss : Stmts) (entry : ℕ) (b : Build env)
        → lo ≤ b.counter
        → exit_id < b.counter
        → Below b.counter (entry ∷ [])
        → Out b (entry ∷ []) (process_block env ss entry exit_id b)
    block-Outcome Stmts.nil entry b low ex h = idle env lo exit_id b _ h
    block-Outcome (Stmts.cons s ss) entry b low ex h =
        let p = statement-Outcome s (entry ∷ []) b low ex h in
        seq env lo exit_id p
          (rest-Outcome ss _ _ (omega (arith, p.grows)) (omega (arith, p.grows)) p.below)

    rest-Outcome :
        (ss : Stmts) (es : List ℕ) (b : Build env)
        → lo ≤ b.counter
        → exit_id < b.counter
        → Below b.counter es
        → Out b es (process_rest env ss es exit_id b)
    rest-Outcome Stmts.nil es b low ex h = idle env lo exit_id b _ h
    rest-Outcome (Stmts.cons s ss) es b low ex h =
        let p = statement-Outcome s es b low ex h in
        seq env lo exit_id p
          (rest-Outcome ss _ _ (omega (arith, p.grows)) (omega (arith, p.grows)) p.below)

    catches-Outcome :
        (cs : Catches) (es last : List ℕ) (b : Build env)
        → lo ≤ b.counter
        → exit_id < b.counter
        → Below b.counter es
        → Below b.counter last
        → Out b last (process_catches env cs es exit_id last b)
    catches-Outcome no_catch es last b low ex h hl = idle env lo exit_id b _ hl
    catches-Outcome (catch line parameter blk rest) es last b low ex h hl =
        let label = text "catch (" ++ catch_type parameter ++ text ")" in
        let e = enter env line (text "statement") label (text "catch") (text "exception") es b in
        let o =
          enter-Outcome env lo exit_id line (text "statement") label (text "catch")
            (text "exception") es b low h in
        let p =
          block-Outcome blk e.0 e.1 (omega (arith, o.2)) (omega (arith, o.2))
            (omega (arith, o.1, o.2), tt) in
        let q = further env lo exit_id {last = last} hl (omega (arith, o.1)) o.0 p in
        let rest_outcome =
          catches-Outcome rest es _ _ (omega (arith, q.grows)) (omega (arith, q.grows))
            (Below-mono es q.grows h) q.below in
        seq env lo exit_id q rest_outcome

    cases-Outcome :
        (cs : Cases) (switch : ℕ) (last : List ℕ) (b : Build env)
        → lo ≤ b.counter
        → exit_id < b.counter
        → switch < b.counter
        → Below b.counter last
        → Out b last (process_cases env cs switch exit_id last b)
    cases-Outcome no_case switch last b low ex h hl = idle env lo exit_id b _ hl
    cases-Outcome (case line value ss rest) switch last b low ex h hl =
        let ty = text "statement" in
        let es = switch ∷ [] in
        let e = enter env line ty (case_label value) (text "case") (case_edge_label value) es b in
        let o =
          enter-Outcome env lo exit_id line ty (case_label value) (text "case")
            (case_edge_label value) es b low (h, tt) in
        let p =
          block-Outcome ss e.0 e.1 (omega (arith, o.2)) (omega (arith, o.2))
            (omega (arith, o.1, o.2), tt) in
        let q = further env lo exit_id {last = last} hl (omega (arith, o.1)) o.0 p in
        let rest_outcome =
          cases-Outcome rest switch _ _ (omega (arith, q.grows)) (omega (arith, q.grows))
            (omega (arith, q.grows)) q.below in
        rw (case_body ss e.0 e.1) (seq env lo exit_id q rest_outcome)
