-- ===== src/ArtNet/Server/Frame.antt =====
-- What sending leaves alone: the node tables.
use ha_artnet_led.Base.{
  ℕ, ◌+◌, ◌≡◌, refl, ap, ◌∙◌, Bool, true, List, [], ◌∷◌, ◌++◌, Option, some, none, arith,
}
use ha_artnet_led.Base.Action.{
  Holds, IsJoined, >>=-Holds, returns-Holds, current-Holds, value_of-Holds, only_if-Holds,
  each-Holds, calls, change,
}
use ha_artnet_led.Base.Bytes.{Bytes}
use ha_artnet_led.ArtNet.Address.{PortAddress}
use ha_artnet_led.ArtNet.Flags.{Port}
use ha_artnet_led.ArtNet.Flags.{Port}
use ha_artnet_led.ArtNet.Server.{
  ArtNetServer, OwnPort, Event, send_to, update_status_message, port_address_eq,
}
use ha_artnet_led.ArtNet.Server.Replies.{
  Group, update_subscribers, send_reply, send_groups, send_chunks, send_chunk,
}
use ha_artnet_led.ArtNet.Server.Sending.{
  modify_port, cancel_task, show_transmitted, create_loop, no_nodes, replace_at, replace_loop,
}

-- No node is reported as lost.
abbrev pub NoLost : List Event → Type 0
NoLost [] = Unit
NoLost (Event.node_lost k ∷ es) = ⊥
NoLost (e ∷ es) = NoLost es

pub NoLost-append : (es fs : List Event) → NoLost es → NoLost fs → NoLost (es ++ fs)
NoLost-append [] fs h k = k
NoLost-append (Event.node_lost n ∷ es) fs h k = h
NoLost-append (Event.send_to a b ∷ es) fs h k = NoLost-append es fs h k
NoLost-append (Event.send_manual a b c ∷ es) fs h k = NoLost-append es fs h k
NoLost-append (Event.node_new a ∷ es) fs h k = NoLost-append es fs h k
NoLost-append (Event.node_update a ∷ es) fs h k = NoLost-append es fs h k
NoLost-append (Event.state_update a b c ∷ es) fs h k = NoLost-append es fs h k
NoLost-append (Event.reply_later a ∷ es) fs h k = NoLost-append es fs h k
NoLost-append (Event.disable_later a ∷ es) fs h k = NoLost-append es fs h k
NoLost-append (Event.start_loop a ∷ es) fs h k = NoLost-append es fs h k
NoLost-append (Event.cancel_loop a ∷ es) fs h k = NoLost-append es fs h k
NoLost-append (Event.fire_trigger a b c d ∷ es) fs h k = NoLost-append es fs h k

-- Replies change the counter of replies and nothing else, and report no node as lost.
pub record OnlyCounts (s t : ArtNetServer) (es : List Event) : Type 0 where
  pub same : t ≡ record s { art_poll_reply_counter = t.art_poll_reply_counter }
  pub no_lost : NoLost es

OnlyCounts-join :
    (s t u : ArtNetServer) (es fs : List Event)
    → OnlyCounts s t es
    → OnlyCounts t u fs
    → OnlyCounts s u (es ++ fs)
OnlyCounts-join s t u es fs h k = record {
  same =
      k.same
      ∙ ap (λ (x : ArtNetServer). record x { art_poll_reply_counter = u.art_poll_reply_counter })
          h.same;
  no_lost = NoLost-append es fs h.no_lost k.no_lost;
}

counts : IsJoined OnlyCounts
counts = record { stay = λ s. record { same = refl; no_lost = tt }; join = OnlyCounts-join }

send_to-OnlyCounts : (a p : Bytes) → Holds OnlyCounts (calls (send_to a p ∷ []))
unfolding calls
send_to-OnlyCounts a p = record { at = λ s. record { same = refl; no_lost = tt } }

count-OnlyCounts :
    Holds OnlyCounts
      (change (λ s. record s { art_poll_reply_counter = s.art_poll_reply_counter + 1 }))
unfolding change
count-OnlyCounts = record { at = λ s. record { same = refl; no_lost = tt } }

send_chunk-OnlyCounts :
    (addr : Bytes) (net sub bind_index : ℕ) (ports : List Port)
    → Holds OnlyCounts (send_chunk addr net sub ports bind_index)
unfolding send_chunk
send_chunk-OnlyCounts addr net sub bind_index ports =
    >>=-Holds counts _ _ (current-Holds counts) (λ s.
      >>=-Holds counts _ _ (value_of-Holds counts _) (λ reply.
        >>=-Holds counts _ _ (value_of-Holds counts _) (λ packet.
          >>=-Holds counts _ _ (send_to-OnlyCounts addr packet)
            (λ _. >>=-Holds counts _ _ count-OnlyCounts (λ _. returns-Holds counts _)))))

send_chunks-OnlyCounts :
    (addr : Bytes) (net sub : ℕ) (chunks : List (List Port)) (bind_index : ℕ)
    → Holds OnlyCounts (send_chunks addr net sub chunks bind_index)
unfolding send_chunks
send_chunks-OnlyCounts addr net sub [] b = returns-Holds counts b
send_chunks-OnlyCounts addr net sub (ports ∷ chunks) b =
    >>=-Holds counts _ _ (send_chunk-OnlyCounts addr net sub b ports)
      (λ c. send_chunks-OnlyCounts addr net sub chunks c)

send_groups-OnlyCounts :
    (addr : Bytes) (groups : List Group) (bind_index : ℕ)
    → Holds OnlyCounts (send_groups addr groups bind_index)
unfolding send_groups
send_groups-OnlyCounts addr [] b = returns-Holds counts tt
send_groups-OnlyCounts addr (g ∷ gs) b =
    >>=-Holds counts _ _ (send_chunks-OnlyCounts addr g.net g.sub_net g.chunks b)
      (λ c. send_groups-OnlyCounts addr gs c)

send_reply-OnlyCounts : (addr : Bytes) → Holds OnlyCounts (send_reply addr)
unfolding send_reply
send_reply-OnlyCounts addr = >>=-Holds counts _ _ (current-Holds counts) (λ s.
    >>=-Holds counts _ _ (value_of-Holds counts _) (λ groups. send_groups-OnlyCounts addr groups _))

pub update_subscribers-OnlyCounts : Holds OnlyCounts update_subscribers
unfolding update_subscribers
update_subscribers-OnlyCounts =
    search (>>=-Holds counts, current-Holds counts, each-Holds counts, send_reply-OnlyCounts)

-- The node tables are left alone, and no node is reported as lost.
pub record SameNodes (s t : ArtNetServer) (es : List Event) : Type 0 where
  pub by_ip : t.nodes_by_ip ≡ s.nodes_by_ip
  pub by_port : t.nodes_by_port_address ≡ s.nodes_by_port_address
  pub no_lost : NoLost es

SameNodes-join :
    (s t u : ArtNetServer) (es fs : List Event)
    → SameNodes s t es
    → SameNodes t u fs
    → SameNodes s u (es ++ fs)
SameNodes-join s t u es fs h k = record {
  by_ip = k.by_ip ∙ h.by_ip;
  by_port = k.by_port ∙ h.by_port;
  no_lost = NoLost-append es fs h.no_lost k.no_lost;
}

pub same_nodes : IsJoined SameNodes
same_nodes = record {
  stay = λ s. record { by_ip = refl; by_port = refl; no_lost = tt };
  join = SameNodes-join;
}

pub change-SameNodes :
    (f : ArtNetServer → ArtNetServer)
    → ((s : ArtNetServer) → (f s).nodes_by_ip ≡ s.nodes_by_ip)
    → ((s : ArtNetServer) → (f s).nodes_by_port_address ≡ s.nodes_by_port_address)
    → Holds SameNodes (change f)
unfolding change
change-SameNodes f h k = record { at = λ s. record { by_ip = h s; by_port = k s; no_lost = tt } }

pub calls-SameNodes : (es : List Event) → NoLost es → Holds SameNodes (calls es)
unfolding calls
calls-SameNodes es h = record { at = λ s. record { by_ip = refl; by_port = refl; no_lost = h } }

update_subscribers-SameNodes : Holds SameNodes update_subscribers
update_subscribers-SameNodes = record {
  at = λ s.
      let h = update_subscribers-OnlyCounts.at s in
      record {
        by_ip = ap (λ (x : ArtNetServer). x.nodes_by_ip) h.same;
        by_port = ap (λ (x : ArtNetServer). x.nodes_by_port_address) h.same;
        no_lost = h.no_lost;
      };
}

pub status-by_ip : (s : ArtNetServer) → (update_status_message s).nodes_by_ip ≡ s.nodes_by_ip
unfolding update_status_message
status-by_ip s = ground arith

pub status-by_port :
    (s : ArtNetServer) → (update_status_message s).nodes_by_port_address ≡ s.nodes_by_port_address
unfolding update_status_message
status-by_port s = ground arith

pub status-SameNodes : Holds SameNodes (change update_status_message)
status-SameNodes = change-SameNodes _ status-by_ip status-by_port

modify_port-by_ip :
    (r : ℕ) (f : OwnPort → OwnPort) (s : ArtNetServer)
    → (modify_port r f s).nodes_by_ip ≡ s.nodes_by_ip
unfolding modify_port
modify_port-by_ip r f s = ground arith

modify_port-by_port :
    (r : ℕ) (f : OwnPort → OwnPort) (s : ArtNetServer)
    → (modify_port r f s).nodes_by_port_address ≡ s.nodes_by_port_address
unfolding modify_port
modify_port-by_port r f s = ground arith

pub modify_port-SameNodes :
    (r : ℕ) (f : OwnPort → OwnPort) → Holds SameNodes (change (modify_port r f))
modify_port-SameNodes r f = change-SameNodes _ (modify_port-by_ip r f) (modify_port-by_port r f)

cancel_task-SameNodes : (task : Option ℕ) → Holds SameNodes (cancel_task task)
unfolding cancel_task
cancel_task-SameNodes none = returns-Holds same_nodes tt
cancel_task-SameNodes (some id) =
    >>=-Holds same_nodes _ _ (calls-SameNodes _ tt)
      (λ _. change-SameNodes _ (λ s. refl) (λ s. refl))

pub show_transmitted-SameNodes : (b : Bool) (r : ℕ) → Holds SameNodes (show_transmitted b r)
unfolding show_transmitted
show_transmitted-SameNodes b r =
    search
      (>>=-Holds same_nodes, modify_port-SameNodes, status-SameNodes, update_subscribers-SameNodes)

create_loop-SameNodes :
    (address : PortAddress) (payload : Bytes) (r : ℕ) (manual : Bool)
    → Holds SameNodes (create_loop address payload r manual)
unfolding create_loop
create_loop-SameNodes address payload r manual =
    >>=-Holds same_nodes _ _ (current-Holds same_nodes) (λ s.
      >>=-Holds same_nodes _ _ (change-SameNodes _ (λ t. refl) (λ t. refl)) (λ _.
        >>=-Holds same_nodes _ _ (calls-SameNodes _ tt) (λ _.
          >>=-Holds same_nodes _ _ (modify_port-SameNodes r _)
            (λ _. returns-Holds same_nodes s.next_loop))))

pub no_nodes-SameNodes : (now : ℕ) (address : PortAddress) → Holds SameNodes (no_nodes now address)
unfolding no_nodes
no_nodes-SameNodes now address = >>=-Holds same_nodes _ _ (current-Holds same_nodes) (λ s.
    >>=-Holds same_nodes _ _ (change-SameNodes _ (λ t. ground arith) (λ t. ground arith))
      (λ _. returns-Holds same_nodes none))

replace_at-SameNodes :
    (address : PortAddress) (payload : Bytes) (manual : Bool) (found : ℕ × OwnPort)
    → Holds SameNodes (replace_at address payload manual found)
unfolding replace_at
replace_at-SameNodes address payload manual (r, o) =
    >>=-Holds same_nodes _ _ (cancel_task-SameNodes o.update_task) (λ _.
      >>=-Holds same_nodes _ _ (only_if-Holds same_nodes _ _ (show_transmitted-SameNodes true r))
        (λ _.
          >>=-Holds same_nodes _ _ (create_loop-SameNodes address payload r manual)
            (λ task. returns-Holds same_nodes (some task))))

pub replace_loop-SameNodes :
    (address : PortAddress) (payload : Bytes) (manual : Bool)
    → Holds SameNodes (replace_loop address payload manual)
unfolding replace_loop
replace_loop-SameNodes address payload manual =
    >>=-Holds same_nodes _ _ (current-Holds same_nodes) (λ s.
      >>=-Holds same_nodes _ _ (value_of-Holds same_nodes _)
        (replace_at-SameNodes address payload manual))
