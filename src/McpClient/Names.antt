-- ===== src/McpClient/Names.antt =====
-- mcpclient.go: the tools of all servers have names of their own.
use docsclaw.Base.{
  Str, bytes, Map, lookup, insert, lookup-insert, eq_iff, ◌==◌, Bool-cases, Option-cases, none,
  some, List, [], ◌∷◌, ◌++◌, map, ◌≡◌, ◌≢◌, refl, sym, ap, subst, ◌∙◌, inl, inr, arith, All,
  All-append, All-weaken, IsDistinct, Result-cases, ok,
}
use docsclaw.Tools.{Tool}
use docsclaw.McpClient.{
  Mcp, McpTool, ListedTool, ServerConn, tool_of, tools, discover_tools, new_manager_from_transports,
  mcp_tool, Transport, McpServerConfig, entries_of, new_manager,
}

append-IsDistinct :
    (xs ys : List Str)
    → IsDistinct xs
    → IsDistinct ys
    → All (λ y. All (λ x. x ≢ y) xs) ys
    → IsDistinct (xs ++ ys)
append-IsDistinct [] ys h k apart = k
append-IsDistinct (x ∷ xs) ys (first, h) k apart = (
  All-append (λ y. y ≢ x) xs ys first (All-weaken (λ y p e. p.0 (sym e)) ys apart),
  append-IsDistinct xs ys h k (All-weaken (λ y p. p.1) ys apart),
)

-- What is known of the names that a server adds to those seen.
record IsAdded (names : List Str) (seen seen' : Map Str) : Type 0 where
  distinct : IsDistinct names
  fresh : All (λ x. lookup x seen ≡ none) names
  kept : (n : Str) → lookup n seen' ≡ none → (lookup n seen ≡ none) × All (λ x. x ≢ n) names

absent-insert :
    (p n server : Str) (seen : Map Str)
    → lookup n (insert p server seen) ≡ none
    → (lookup n seen ≡ none) × (p ≢ n)
absent-insert p n server seen h = elim (Bool-cases (p == n)) [
  | inl e ↦ absurd (ground (arith, h, e, lookup-insert p n server seen))
  | inr e ↦ (
    ground (arith, h, e, lookup-insert p n server seen),
    λ f. absurd (ground (arith, e, f, eq_iff p n)),
  )
]

add_one :
    (p server : Str) (names : List Str) (seen seen' : Map Str)
    → lookup p seen ≡ none
    → IsAdded names (insert p server seen) seen'
    → IsAdded (p ∷ names) seen seen'
add_one p server names seen seen' h added =
    let open_up : (x : Str)
        → lookup x (insert p server seen) ≡ none
        → (lookup x seen ≡ none) × (p ≢ x) =
      λ x f. absent-insert p x server seen f in
    record {
      distinct = (All-weaken (λ x f e. (open_up x f).1 (sym e)) names added.fresh, added.distinct);
      fresh = (h, All-weaken (λ x f. (open_up x f).0) names added.fresh);
      kept = λ n f. let (g, k) = added.kept n f in let (a, b) = open_up n g in (a, (b, k));
    }

append_nil : (xs : List Str) → xs ++ [] ≡ xs
append_nil [] = refl
append_nil (x ∷ xs) = ap (λ l. x ∷ l) (append_nil xs)

append_assoc : (xs ys zs : List Str) → (xs ++ ys) ++ zs ≡ xs ++ (ys ++ zs)
append_assoc [] ys zs = refl
append_assoc (x ∷ xs) ys zs = ap (λ l. x ∷ l) (append_assoc xs ys zs)

module _ {W S : Type 0} (mcp : Mcp W S) where
  abbrev names_of : List (McpTool S) → List Str
  names_of found = map (λ t. (tool_of mcp t).name) found

  abbrev all_names : List (ServerConn S) → List Str
  all_names servers = map (λ (t : Tool W). t.name) (tools mcp servers)

  discover_tools-IsAdded :
      (server : Str) (session : S) (listed : List ListedTool) (seen : Map Str)
      (found : List (McpTool S)) (seen' : Map Str)
      → discover_tools mcp server session listed seen ≡ ok (found, seen')
      → IsAdded (names_of found) seen seen'
  unfolding discover_tools mcp_tool tool_of
  discover_tools-IsAdded server session [] seen found seen' h =
      let e : [] ≡ found = cc h in
      let f : seen ≡ seen' = cc h in
      subst (λ l. IsAdded (names_of l) seen seen') e
        (subst (λ m. IsAdded [] seen m) f
          (record { distinct = tt; fresh = tt; kept = λ n g. (g, tt) }))
  discover_tools-IsAdded server session (t ∷ listed) seen found seen' h =
      let p = server ++ (bytes "_" ++ t.name) in
      elim (Option-cases (lookup p seen)) [
        | inr (x, e) ↦ absurd (ground (arith, h, e))
        | inl e ↦
            elim (Result-cases (discover_tools mcp server session listed (insert p server seen))) [
              | inl (x, f) ↦ absurd (ground (arith, h, e, f))
              | inr ((more, seen1), f) ↦
                  let tool : McpTool S = mcp_tool mcp server session t in
                  let g : tool ∷ more ≡ found = ground (arith, h, e, f) in
                  let k : seen1 ≡ seen' = ground (arith, h, e, f) in
                  let added =
                    discover_tools-IsAdded server session listed (insert p server seen) more seen1
                      f in
                  subst (λ l. IsAdded (names_of l) seen seen') g
                    (subst (λ m. IsAdded (p ∷ names_of more) seen m) k
                      (add_one p server (names_of more) seen seen1 e added))
            ]
      ]

  names_of-append :
      (found : List (McpTool S)) (rest : List (Tool W))
      → map (λ (t : Tool W). t.name) (map (tool_of mcp) found ++ rest)
        ≡ names_of found ++ map (λ (t : Tool W). t.name) rest
  names_of-append [] rest = refl
  names_of-append (t ∷ found) rest = ap (λ l. (tool_of mcp t).name ∷ l) (names_of-append found rest)

  all_names-append :
      (servers : List (ServerConn S)) (conn : ServerConn S)
      → all_names (servers ++ conn ∷ []) ≡ all_names servers ++ names_of conn.tools
  unfolding tools tool_of
  all_names-append [] conn = names_of-append conn.tools [] ∙ append_nil (names_of conn.tools)
  all_names-append (s ∷ servers) conn =
      names_of-append s.tools (tools mcp (servers ++ conn ∷ []))
      ∙ ap (λ l. names_of s.tools ++ l) (all_names-append servers conn)
      ∙ sym (append_assoc (names_of s.tools) (all_names servers) (names_of conn.tools))
      ∙ ap (λ l. l ++ names_of conn.tools) (sym (names_of-append s.tools (tools mcp servers)))

  -- The names so far differ, and are all seen.
  record IsKnown (servers : List (ServerConn S)) (seen : Map Str) : Type 0 where
    distinct : IsDistinct (all_names servers)
    known : (n : Str) → lookup n seen ≡ none → All (λ x. x ≢ n) (all_names servers)

  add_server :
      (servers : List (ServerConn S)) (conn : ServerConn S) (seen seen' : Map Str)
      → IsKnown servers seen
      → IsAdded (names_of conn.tools) seen seen'
      → IsKnown (servers ++ conn ∷ []) seen'
  add_server servers conn seen seen' known added =
      let e = sym (all_names-append servers conn) in
      record {
        distinct = subst IsDistinct e (
            append-IsDistinct (all_names servers) (names_of conn.tools) known.distinct
              added.distinct (All-weaken known.known (names_of conn.tools) added.fresh));
        known = λ n f.
            let (g, k) = added.kept n f in
            subst (All (λ x. x ≢ n)) e (
              All-append (λ x. x ≢ n) (all_names servers) (names_of conn.tools) (known.known n g)
                k);
      }

  new_manager_from_transports-IsDistinct :
      (entries : List (Str × Transport)) (servers : List (ServerConn S)) (seen : Map Str) (w : W)
      (all : List (ServerConn S))
      → IsKnown servers seen
      → (new_manager_from_transports mcp entries servers seen w).0 ≡ ok all
      → IsDistinct (all_names all)
  unfolding new_manager_from_transports
  new_manager_from_transports-IsDistinct [] servers seen w all known h =
      subst (λ l. IsDistinct (all_names l)) (cc h) known.distinct
  new_manager_from_transports-IsDistinct ((name, transport) ∷ entries) servers seen w all known h =
      elim (Result-cases (mcp.connect transport w).0) [
        | inl (x, e) ↦ absurd (ground (arith, h, e))
        | inr (session, e) ↦
            let w1 = (mcp.connect transport w).1 in
            elim (Result-cases (mcp.list_tools session w1).0) [
              | inl (x, f) ↦ absurd (ground (arith, h, e, f))
              | inr (infos, f) ↦ elim (Result-cases (discover_tools mcp name session infos seen)) [
                | inl (x, g) ↦ absurd (ground (arith, h, e, f, g))
                | inr ((found, seen'), g) ↦
                    let conn : ServerConn S = record {
                      name = name;
                      session = session;
                      tools = found;
                    } in
                    new_manager_from_transports-IsDistinct entries (servers ++ conn ∷ []) seen'
                      (mcp.list_tools session w1).1 all
                      (add_server servers conn seen seen' known
                        (discover_tools-IsAdded name session infos seen found seen' g))
                      (ground (arith, h, e, f, g))
              ]
            ]
      ]

  -- If the manager is made, no two tools of all its servers have the same name, so that none takes
  -- the place of another in the registry.
  pub new_manager-IsDistinct :
      (configs : List McpServerConfig) (w : W) (servers : List (ServerConn S)) (w' : W)
      → new_manager mcp configs w ≡ some (ok servers, w')
      → IsDistinct (map (λ (t : Tool W). t.name) (tools mcp servers))
  unfolding new_manager tools
  new_manager-IsDistinct configs w servers w' h = elim (Option-cases (entries_of mcp [] configs)) [
    | inl e ↦ absurd (ground (arith, h, e))
    | inr (made, e) ↦ elim (Result-cases made) [
      | inl (x, f) ↦ absurd (ground (arith, h, e, f))
      | inr (entries, f) ↦
          new_manager_from_transports-IsDistinct entries [] [] w servers
            (record { distinct = tt; known = λ n f. tt }) (ground (arith, h, e, f))
    ]
  ]
