-- ===== src/Cfg/Compose.antt =====
-- Outcomes of the parts of a CFG handler make the outcome of the handler.
use retro_doc.Prelude.{
  ℕ, ◌≤◌, ◌<◌, Text, text, List, [], ◌∷◌, ◌++◌, refl, inl, inr, All, All-append, All-map, arith,
}
use retro_doc.Cfg.Graph.{Env, Build, add_edge_to_first, first_or, close_loop, or_switch}
use retro_doc.Cfg.Trace.{
  IsTarget, done, Trace-trans, Outcome, add_edges_from-Trace, add_edge_to_first-Trace,
}

abbrev pub Below : ℕ → List ℕ → Type 0
Below k ns = All (λ n. n < k) ns

pub Below-mono : {k m : ℕ} (ns : List ℕ) → k ≤ m → Below k ns → Below m ns
Below-mono {k} {m} ns h = All-map (λ n. n < k) _ ns (λ n hn. omega arith)

module _ (env : Env) (lo exit_id : ℕ) where
  abbrev Out : Build env → List ℕ → List ℕ × Build env → Type 0
  Out = Outcome env lo exit_id

  pub idle : (b : Build env) (ns : List ℕ) → Below b.counter ns → Out b ns (ns, b)
  idle b ns h = record { trace = done; grows = omega arith; below = h; targets = λ t. t }

  pub seq :
      {b : Build env} {es : List ℕ} {r r' : List ℕ × Build env}
      → Out b es r
      → Out r.1 r.0 r'
      → Out b es r'
  seq p q = record {
    trace = Trace-trans env lo exit_id p.trace q.trace;
    grows = omega (arith, p.grows, q.grows);
    below = q.below;
    targets = λ t. q.targets (p.targets t);
  }

  pub retarget :
      {b : Build env} {es fs : List ℕ} {r : List ℕ × Build env}
      → Out b es r
      → (All (IsTarget lo exit_id) fs → All (IsTarget lo exit_id) es)
      → Out b fs r
  retarget p t = record {
    trace = p.trace;
    grows = p.grows;
    below = p.below;
    targets = λ h. p.targets (t h);
  }

  -- What comes last in two parts that run one after the other.
  pub append-Outcome :
      {b c : Build env} {es xs fs : List ℕ} {r : List ℕ × Build env}
      → Out b es (xs, c)
      → Out c fs r
      → All (IsTarget lo exit_id) fs
      → Out b es (xs ++ r.0, r.1)
  append-Outcome {xs} {r} p q t = record {
    trace = Trace-trans env lo exit_id p.trace q.trace;
    grows = omega (arith, p.grows, q.grows);
    below = All-append _ xs r.0 (Below-mono xs q.grows p.below) q.below;
    targets = λ h. All-append _ xs r.0 (p.targets h) (q.targets t);
  }

  pub narrow :
      {b : Build env} (es : List ℕ) {r : List ℕ × Build env}
      → Out b (first_or es exit_id ∷ []) r
      → Out b es r
  unfolding first_or
  narrow [] p = retarget p (λ h. (inl refl, tt))
  narrow (e ∷ es) p = retarget p (λ h. (h.0, tt))

  pub first_or-Below :
      (es : List ℕ) {k : ℕ} → exit_id < k → Below k es → Below k (first_or es exit_id ∷ [])
  unfolding first_or
  first_or-Below [] x h = (x, tt)
  first_or-Below (e ∷ es) x h = (h.0, tt)

  -- A branch of `c` and the edge to its first last node.
  pub branch-Outcome :
      {b : Build env} (c : ℕ) (label : Text) {r : List ℕ × Build env}
      → c < b.counter
      → lo ≤ c
      → Out b (c ∷ []) r
      → Out b (c ∷ []) (r.0, add_edge_to_first env c r.0 label r.1)
  branch-Outcome c label {r} below_b low p =
      let e =
        add_edge_to_first-Trace env lo exit_id c r.0 label r.1 (omega (arith, p.grows)) p.below
          (p.targets (inr low, tt)) in
      record {
        trace = Trace-trans env lo exit_id p.trace e.0;
        grows = omega (arith, p.grows, e.1);
        below = Below-mono r.0 (omega (arith, e.1)) p.below;
        targets = p.targets;
      }

  pub close_loop-Outcome :
      {b : Build env} (c : ℕ) {r : List ℕ × Build env}
      → c < b.counter
      → lo ≤ c
      → Out b (c ∷ []) r
      → Out b (c ∷ []) (close_loop env c r)
  unfolding close_loop
  close_loop-Outcome c {r} below_b low p =
      let q = branch-Outcome c (text "true") below_b low p in
      let e =
        add_edges_from-Trace env lo exit_id r.0 c (text "loop") _ q.below (omega (arith, q.grows))
          (inr low) in
      record {
        trace = Trace-trans env lo exit_id q.trace e.0;
        grows = omega (arith, q.grows, e.1);
        below = (omega (arith, q.grows, e.1), tt);
        targets = λ t. t;
      }

  pub or_switch-Outcome :
      {b : Build env} {es : List ℕ} (c : ℕ) (r : List ℕ × Build env)
      → c < r.1.counter
      → lo ≤ c
      → Out b es r
      → Out b es (or_switch env c r)
  unfolding or_switch
  or_switch-Outcome c ([], d) below_d low p = record {
    trace = p.trace;
    grows = p.grows;
    below = (below_d, tt);
    targets = λ _. (inr low, tt);
  }
  or_switch-Outcome c (n ∷ ns, d) below_d low p = p

  -- `if` without `else`: the condition is a last node too.
  pub then_part :
      {b : Build env} (c : ℕ) {r : List ℕ × Build env}
      → c < b.counter
      → lo ≤ c
      → Out b (c ∷ []) r
      → Out b (c ∷ []) (r.0 ++ c ∷ [], add_edge_to_first env c r.0 (text "true") r.1)
  then_part c {r} below_b low p =
      let q = branch-Outcome c (text "true") below_b low p in
      append-Outcome {xs = r.0} {fs = c ∷ []} q
        (idle (add_edge_to_first env c r.0 (text "true") r.1) (c ∷ []) (omega (arith, q.grows), tt))
        (inr low, tt)

  pub else_part :
      {b : Build env} (c : ℕ) {r s : List ℕ × Build env}
      → c < b.counter
      → lo ≤ c
      → Out b (c ∷ []) r
      → Out (add_edge_to_first env c r.0 (text "true") r.1) (c ∷ []) s
      → Out b (c ∷ []) (r.0 ++ s.0, add_edge_to_first env c s.0 (text "false") s.1)
  else_part c {r} {s} below_b low p p' =
      let q = branch-Outcome c (text "true") below_b low p in
      append-Outcome {xs = r.0} {fs = c ∷ []} q
        (branch-Outcome c (text "false") (omega (arith, q.grows)) low p') (inr low, tt)

  -- What a `catch` or a `case` adds behind the last nodes so far.
  pub further :
      {b : Build env} {es last : List ℕ} {n : ℕ} {c : Build env} {r : List ℕ × Build env}
      → Below b.counter last
      → lo ≤ n
      → Out b es (n ∷ [], c)
      → Out c (n ∷ []) r
      → Out b last (last ++ r.0, r.1)
  further {b} {last} {n} {c} {r} h low p q =
      let o : Out b [] r = record {
        trace = Trace-trans env lo exit_id p.trace q.trace;
        grows = omega (arith, p.grows, q.grows);
        below = q.below;
        targets = λ _. q.targets (inr low, tt);
      } in
      append-Outcome {xs = last} {fs = []} (idle b last h) o tt
