-- ===== src/Client/Health.antt =====
-- `handle_unresponsive_pings_nodes_task` of client/src/client.rs: what a round leaves.
use mathlib.Core.Option
use pessi_streamer.Base.{
  ◌≡◌, ◌≢◌, ◌⊎◌, refl, ap, sym, ◌∙◌, inl, inr, Bool, true, false, ◌||◌, Option, none, some, List,
  [], ◌∷◌, arith, ==_iff, nat_eq, contains, Bool-cases, Option-cases, ◌==◌, if◌then◌else◌,
}
use pessi_streamer.Containers.{Containers, get, get-modify, modify-Found}
use pessi_streamer.Containers.Keys.{passes, contains-keys-iter}
use pessi_streamer.Common.Packet.{SocketAddr, addr_eq, VideoId, SystemTime, Packet}
use pessi_streamer.Common.Effect.{ok, for_each}
use pessi_streamer.Common.Reliable.{Codec}
use pessi_streamer.Client.State.{
  State, Node, unresponsive, is_connected, average_rtt, get_videos_playing_from_node,
}
use pessi_streamer.Client.Best.{AreMeasured}
use pessi_streamer.Client.Handle.{}
use pessi_streamer.Client.Redirection.{is_played_from, IsOff, contains-played, redirects_lem}
use pessi_streamer.Client.Tasks.{
  is_silent, silent_nodes, mark_unresponsive, drop_node, unresponsive_round,
}

module _ ⦃lib : Containers⦄ where
  mark_unresponsive-AreMeasured :
      (addr : SocketAddr) (s : State) → AreMeasured s → AreMeasured (mark_unresponsive addr s)
  unfolding mark_unresponsive
  mark_unresponsive-AreMeasured addr s measured =
      modify-Found (λ a n. is_connected n.status ≡ true → average_rtt n ≢ none) s.nodes addr _
        (λ n found on. absurd (ground (arith, on))) measured

  abbrev off_line : Node → Node
  off_line n = record n { status = unresponsive }

  mark_unresponsive-nodes :
      (addr a : SocketAddr) (s : State)
      → get (mark_unresponsive addr s).nodes a
        ≡ (if addr == a then Option.map off_line (get s.nodes a) else get s.nodes a)
  unfolding mark_unresponsive
  mark_unresponsive-nodes addr a s = get-modify s.nodes addr off_line a

  IsOff-of_nodes :
      (s t : State) (a : SocketAddr)
      → (get t.nodes a ≡ Option.map off_line (get s.nodes a))
      → IsOff t a
  IsOff-of_nodes s t a e n found = elim (Option-cases (get s.nodes a)) [
    | inl missing ↦ absurd (ground (arith, missing, e, found))
    | inr (m, there) ↦
        let same : some (off_line m) ≡ some n = sym (e ∙ rw there refl) ∙ found in
        ground (arith, same)
  ]

  -- A dropped address stays dropped, and the one that is marked is dropped.
  mark_unresponsive-IsOff :
      (addr a : SocketAddr) (s : State)
      → ((addr == a) ≡ true) ⊎ IsOff s a
      → IsOff (mark_unresponsive addr s) a
  mark_unresponsive-IsOff addr a s h = elim (Bool-cases (addr == a)) [
    | inl same ↦
        IsOff-of_nodes s (mark_unresponsive addr s) a
          (mark_unresponsive-nodes addr a s ∙ rw same refl)
    | inr other ↦ elim h [
      | inl same ↦ absurd (ground (arith, other, same))
      | inr off ↦ λ n found. off n (sym (mark_unresponsive-nodes addr a s ∙ rw other refl) ∙ found)
    ]
  ]

  marked_twice :
      (addr a : SocketAddr) (later : Bool) (s : State)
      → (if later
          then Option.map off_line (get (mark_unresponsive addr s).nodes a)
          else get (mark_unresponsive addr s).nodes a)
        ≡ (if addr == a || later then Option.map off_line (get s.nodes a) else get s.nodes a)
  marked_twice addr a later s = elim (Option-cases (get s.nodes a)) [
    | inl missing ↦ ground (arith, missing, mark_unresponsive-nodes addr a s)
    | inr (n, found) ↦ ground (arith, found, mark_unresponsive-nodes addr a s)
  ]

module _ ⦃lib : Containers⦄ ⦃codec : Codec Packet⦄ (now : SystemTime) where
  drop_node_lem :
      (addr : SocketAddr) (s : State)
      → AreMeasured s
      → let t = (drop_node now addr s).1 in
        ((drop_node now addr s).0 ≡ ok tt)
        × (t.nodes ≡ (mark_unresponsive addr s).nodes)
        × ((a : SocketAddr) (w : VideoId)
            → ((addr == a) ≡ true) ⊎ (IsOff s a × (is_played_from s a w ≡ false))
            → is_played_from t a w ≡ false)
  unfolding drop_node is_played_from mark_unresponsive
  drop_node_lem addr s measured =
      let u = mark_unresponsive addr s in
      let vs = get_videos_playing_from_node u addr in
      let (done, nodes, played) =
        redirects_lem now vs u (mark_unresponsive-AreMeasured addr s measured) in
      (
        done,
        nodes,
        λ a w h. elim h [
          | inl same ↦
              let e : addr ≡ a = (==_iff addr a).0 same in
              played a w (mark_unresponsive-IsOff addr a s (inl same))
              ∙ ground (arith, contains-played u addr w, ap (λ b. is_played_from u b w) e)
          | inr (off, unplayed) ↦
              played a w (mark_unresponsive-IsOff addr a s (inr off)) ∙ ground (arith, unplayed)
        ],
      )

  drop_nodes_lem :
      (addrs : List SocketAddr) (s : State)
      → AreMeasured s
      → let t = (for_each addrs (drop_node now) s).1 in
        ((for_each addrs (drop_node now) s).0 ≡ ok tt)
        × ((a : SocketAddr)
            → get t.nodes a
              ≡ (if contains addrs a then Option.map off_line (get s.nodes a) else get s.nodes a))
        × ((a : SocketAddr) (w : VideoId)
            → (contains addrs a ≡ true) ⊎ (IsOff s a × (is_played_from s a w ≡ false))
            → is_played_from t a w ≡ false)
  unfolding contains
  drop_nodes_lem [] s measured = (
    refl,
    λ a. refl,
    λ a w h. elim h [ inl e ↦ absurd (ground (arith, e)) | inr (off, unplayed) ↦ unplayed ],
  )
  drop_nodes_lem (addr ∷ addrs) s measured =
      let u = (drop_node now addr s).1 in
      let (done, nodes, played) = drop_node_lem addr s measured in
      let (all_done, all_nodes, all_played) =
        drop_nodes_lem addrs u
          (λ a n found. mark_unresponsive-AreMeasured addr s measured a n (rw nodes at found)) in
      let off_after : (a : SocketAddr) → ((addr == a) ≡ true) ⊎ IsOff s a → IsOff u a =
        λ a h n found. mark_unresponsive-IsOff addr a s h n (rw nodes at found) in
      rw done (
        all_done,
        λ a.
            all_nodes a
            ∙ ap (λ m. if contains addrs a then Option.map off_line (get m a) else get m a) nodes
            ∙ marked_twice addr a (contains addrs a) s,
        λ a w h. all_played a w (elim h [
          | inl dropped ↦ elim (Bool-cases (contains addrs a)) [
            | inl later ↦ inl later
            | inr now' ↦
                let same : (addr == a) ≡ true = ground (arith, dropped, now') in
                inr (off_after a (inl same), played a w (inl same))
          ]
          | inr (off, unplayed) ↦ inr (off_after a (inr off), played a w (inr (off, unplayed)))
        ]),
      )

-- A node that did not answer for three intervals, as a round leaves it.
abbrev pub expire : ⦃lib : Containers⦄ → SystemTime → Node → Node
expire now n = if is_silent now n then off_line n else n

module _ ⦃lib : Containers⦄ ⦃codec : Codec Packet⦄ (now : SystemTime) where
  -- Over tables where every connected node has a round-trip time, a round of
  -- `handle_unresponsive_pings_nodes_task` comes to its end. It marks exactly the connected nodes whose
  -- last answer is more than three intervals ago, and no video is played from one of them any more.
  pub unresponsive_round_lem :
      (s : State)
      → AreMeasured s
      → let t = (unresponsive_round now s).1 in
        ((unresponsive_round now s).0 ≡ ok tt)
        × ((a : SocketAddr) → get t.nodes a ≡ Option.map (expire now) (get s.nodes a))
        × ((a : SocketAddr) (n : Node)
            → get s.nodes a ≡ some n
            → is_silent now n ≡ true
            → (v : VideoId) → is_played_from t a v ≡ false)
  unfolding unresponsive_round silent_nodes passes
  unresponsive_round_lem s measured =
      let addrs = silent_nodes now s in
      let (done, nodes, played) = drop_nodes_lem now addrs s measured in
      (
        done,
        λ a.
            nodes a
            ∙ ap (λ b. if b then Option.map off_line (get s.nodes a) else get s.nodes a)
                (contains-keys-iter (λ e. is_silent now e.1) s.nodes a)
            ∙ expired a (get s.nodes a),
        λ a n found late v.
            played a v
              (inl (contains-keys-iter (λ e. is_silent now e.1) s.nodes a ∙ rw found late)),
      )
    where
      expired :
          (a : SocketAddr) (o : Option Node)
          → (if passes (λ e. is_silent now e.1) a o then Option.map off_line o else o)
            ≡ Option.map (expire now) o
      expired a none = refl
      expired a (some n) = ground arith
