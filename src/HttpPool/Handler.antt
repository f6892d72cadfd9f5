-- ===== src/HttpPool/Handler.antt =====
-- What gocache/lrucache/http.go answers to a request for a key of a group, and which peers it
-- picks.
use go_example.Prelude.{
  ℕ, ◌≡◌, refl, ap, ◌∙◌, ◌≢◌, false, none, some, List, [], ◌∷◌, ◌++◌, if◌then◌else◌, ==_iff, All,
  ne→==_false,
}
use go_example.Prelude.Dict.{Str, str_eq, insert, lookup-insert}
use go_example.ConsistentHash
use go_example.ConsistentHash.{Map}
use go_example.ConsistentHash.Nodes
use go_example.ConsistentHash.Nodes.{add-new_nil}
use go_example.Group
use go_example.Group.{Registry, Getter, Fetched, bytes, failed, getter_error}
use go_example.Group.Reads
use go_example.Group.Reads.{clone_bytes-eq, reply_of, get-reply_of}
use go_example.HttpPool.{
  Response, ok, internal_error, slash, default_base_path, HttpPool, new_http_pool, after_prefix,
  split_slash, respond, serve_group, serve_http, set_peers, pick_peer,
}

after_prefix-append : (p s : Str) → after_prefix p (p ++ s) ≡ some s
unfolding after_prefix
after_prefix-append [] s = refl
after_prefix-append (c ∷ p) s = rw ((==_iff c c).1 refl) (after_prefix-append p s)

split_slash-append :
    (name key : Str)
    → All (λ c. c ≢ slash) name
    → split_slash (name ++ (slash ∷ key)) ≡ some (name, key)
unfolding split_slash
split_slash-append [] key h = refl
split_slash-append (c ∷ name) key h = rw (ne→==_false c slash h.0, split_slash-append name key h.1)

serve_group_found :
    (groups : Registry) (name key : Str) {g g' : Group.Group} {r : Group.Reply}
    → Group.get_group groups name ≡ some g
    → Group.get g key ≡ some (g', r)
    → serve_group groups (some (name, key)) ≡ some (insert name g' groups, respond r)
unfolding serve_group
serve_group_found groups name key e h = rw (e, serve_group, h)

-- The response for what a getter returns: its bytes, or its error.
abbrev pub answer_of : Fetched → Response
answer_of (bytes b) = ok b
answer_of (failed e) = internal_error (getter_error e)

respond-answer_of : (f : Getter) (r : Fetched) → respond (reply_of f r) ≡ answer_of r
unfolding respond
respond-answer_of f (bytes b) = ap ok (clone_bytes-eq b)
respond-answer_of f (failed e) = refl

-- A request for a key of a registered, valid group, whose name has no slash, is answered with what
-- the group's getter returns for the key: its bytes as the body, or its error. The group stays valid, and the
-- other groups are as before.
pub serve_http-reply_of :
    (f : Getter) (m : ℕ) (self name : Str) (x : ℕ) (key : Str) (groups : Registry) (g : Group.Group)
    → All (λ c. c ≢ slash) name
    → Group.get_group groups name ≡ some g
    → Reads.IsValid f m g
    → (g' : Group.Group) × (serve_http
          (new_http_pool self)
          groups
          (default_base_path ++ (name ++ (slash ∷ x ∷ key)))
        ≡ some (insert name g' groups, answer_of (f (x ∷ key))))
      × Reads.IsValid f m g'
      × ((j : Str)
          → Group.get_group (insert name g' groups) j
            ≡ (if str_eq name j then some g' else Group.get_group groups j))
unfolding serve_http new_http_pool Group.get_group
serve_http-reply_of f m self name x key groups g plain e v =
    let (g', run, v') = get-reply_of f m g x key v in
    (
      g',
      rw
          (
            after_prefix-append default_base_path (name ++ (slash ∷ x ∷ key)),
            split_slash-append name (x ∷ key) plain,
          )
          (serve_group_found groups name (x ∷ key) e run
            ∙ ap (λ a. some (insert name g' groups, a)) (respond-answer_of f (f (x ∷ key)))),
      v',
      λ j. lookup-insert name j g' groups,
    )

-- `Set` panics for any peers: the ring is built with no hash function.
set_peers_panics :
    (p : HttpPool) (peer : Str) (peers : List Str) → set_peers p (peer ∷ peers) ≡ none
unfolding set_peers
set_peers_panics p peer peers = rw (add-new_nil 49 peer peers)

pick_peer_plain :
    (p : HttpPool) (key : Str) {m : Map} (node : Str)
    → p.peers ≡ some m
    → ConsistentHash.get m key ≡ some node
    → str_eq node [] ≡ false
    → pick_peer p key ≡ some none
unfolding pick_peer
pick_peer_plain p key node e h ne = rw (e, h, ne)

-- On a ring of nodes that all have a name, `PickPeer` picks no peer for any key, not even where
-- the key's owner is another node.
pick_peer-none :
    (p : HttpPool) (key : Str) (fn : Str → ℕ) (m : Map)
    → p.peers ≡ some m
    → m.keys ≢ []
    → Nodes.IsValid fn (λ s. str_eq s [] ≡ false) m
    → pick_peer p key ≡ some none
pick_peer-none p key fn m e ne v =
    let (node, run, named, _) = Nodes.get-Next fn (λ s. str_eq s [] ≡ false) m key ne v in
    pick_peer_plain p key node e run named
