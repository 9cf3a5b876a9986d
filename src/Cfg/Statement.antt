-- ===== src/Cfg/Statement.antt =====
-- `_process_block`, `_process_statement` and the handlers that it calls, of
-- worker/app/graphs/service/cfg_builder/java.py. Each returns the last nodes and the new state.
use retro_doc.Prelude.{ℕ, text, List, [], ◌∷◌, ◌++◌, if◌then◌else◌}
use retro_doc.Java.Syntax.{Stmt, Stmts, Catches, Cases, no_catch, catch, no_case, case}
use retro_doc.Cfg.Label.{label, control_label, catch_type}
use retro_doc.Cfg.Graph.{
  Env, Build, enter, add_edge, add_edges_from, add_edge_to_first, first_or, close_loop, is_nil,
  return_label, case_label, case_edge_label, or_switch, process_simple,
}

module _ (env : Env) where
  unfoldable mutual
    unfolding enter add_edge add_edges_from add_edge_to_first first_or close_loop is_nil
        return_label case_label case_edge_label or_switch process_simple control_label catch_type

    pub process_statement : Stmt → List ℕ → ℕ → Build env → List ℕ × Build env
    process_statement (Stmt.if_then line c t) entries exit_id b =
        let (cond, b1) =
          enter env line (text "branch") (text "if (" ++ label c ++ text ")") (text "if") [] entries
            b in
        let (then_last, b2) = process_statement t (cond ∷ []) exit_id b1 in
        (then_last ++ cond ∷ [], add_edge_to_first env cond then_last (text "true") b2)
    process_statement (Stmt.if_else line c t e) entries exit_id b =
        let (cond, b1) =
          enter env line (text "branch") (text "if (" ++ label c ++ text ")") (text "if") [] entries
            b in
        let (then_last, b2) = process_statement t (cond ∷ []) exit_id b1 in
        let b3 = add_edge_to_first env cond then_last (text "true") b2 in
        let (else_last, b4) = process_statement e (cond ∷ []) exit_id b3 in
        (then_last ++ else_last, add_edge_to_first env cond else_last (text "false") b4)
    process_statement (Stmt.while_loop line c body) entries exit_id b =
        let (cond, b1) =
          enter env line (text "branch") (text "while (" ++ label c ++ text ")") (text "while") []
            entries b in
        close_loop env cond (process_statement body (cond ∷ []) exit_id b1)
    process_statement (Stmt.for_loop line control body) entries exit_id b =
        let (cond, b1) =
          enter env line (text "branch") (text "for (" ++ control_label control ++ text ")")
            (text "for") [] entries b in
        close_loop env cond (process_statement body (cond ∷ []) exit_id b1)
    process_statement (Stmt.try_catch line blk catches fin) entries exit_id b =
        let (try_last, b1) = process_block blk (first_or entries exit_id) exit_id b in
        let (last, b2) = process_catches catches entries exit_id try_last b1 in
        let (nid, b3) =
          enter env line (text "statement") (text "finally") (text "finally") [] last b2 in
        if is_nil fin then (last, b2) else process_block fin nid exit_id b3
    process_statement (Stmt.switch line e cases) entries exit_id b =
        let (switch, b1) =
          enter env line (text "branch") (text "switch (" ++ label e ++ text ")") (text "switch") []
            entries b in
        or_switch env switch (process_cases cases switch exit_id [] b1)
    process_statement (Stmt.return_value line e) entries exit_id b =
        let (ret, b1) =
          enter env line (text "statement") (return_label e) (text "return") [] entries b in
        ([], add_edge env ret exit_id [] b1)
    process_statement (Stmt.block ss) entries exit_id b =
        process_block ss (first_or entries exit_id) exit_id b
    process_statement (Stmt.expression line e) entries exit_id b =
        process_simple env (Stmt.expression line e) line entries b
    process_statement (Stmt.local_variable line ty ds) entries exit_id b =
        process_simple env (Stmt.local_variable line ty ds) line entries b
    process_statement (Stmt.other_stmt line c) entries exit_id b =
        process_simple env (Stmt.other_stmt line c) line entries b

    pub process_block : Stmts → ℕ → ℕ → Build env → List ℕ × Build env
    process_block Stmts.nil entry_id exit_id b = (entry_id ∷ [], b)
    process_block (Stmts.cons s ss) entry_id exit_id b =
        let (current, b1) = process_statement s (entry_id ∷ []) exit_id b in
        process_rest ss current exit_id b1

    -- The loop of `_process_block`, from the current last nodes.
    pub process_rest : Stmts → List ℕ → ℕ → Build env → List ℕ × Build env
    process_rest Stmts.nil current exit_id b = (current, b)
    process_rest (Stmts.cons s ss) current exit_id b =
        let (next, b1) = process_statement s current exit_id b in process_rest ss next exit_id b1

    -- The loop over `stmt.catches`, from the last nodes so far.
    pub process_catches : Catches → List ℕ → ℕ → List ℕ → Build env → List ℕ × Build env
    process_catches no_catch entries exit_id last b = (last, b)
    process_catches (catch line parameter blk rest) entries exit_id last b =
        let (nid, b1) =
          enter env line (text "statement") (text "catch (" ++ catch_type parameter ++ text ")")
            (text "catch") (text "exception") entries b in
        let (catch_last, b2) = process_block blk nid exit_id b1 in
        process_catches rest entries exit_id (last ++ catch_last) b2

    -- The loop over `stmt.cases`.
    pub process_cases : Cases → ℕ → ℕ → List ℕ → Build env → List ℕ × Build env
    process_cases no_case switch exit_id last b = (last, b)
    process_cases (case line value ss rest) switch exit_id last b =
        let (nid, b1) =
          enter env line (text "statement") (case_label value) (text "case") (case_edge_label value)
            (switch ∷ []) b in
        let (case_last, b2) =
          if is_nil ss then (nid ∷ [], b1) else process_block ss nid exit_id b1 in
        process_cases rest switch exit_id (last ++ case_last) b2
