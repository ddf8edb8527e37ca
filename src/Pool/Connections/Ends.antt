-- ===== src/Pool/Connections/Ends.antt =====
-- What is left of the connections of src/camera.rs when one of them has ended.
use a9_v.Prelude.{ℕ, ◌%◌, ◌≡◌, ◌≢◌, subst, List, [], ◌∷◌, Option, none, ◌==◌, if_rule}
use a9_v.Wire.{Bytes}
use a9_v.Camera.{bytes_eq}
use a9_v.Manager.{device_name}
use a9_v.Manager.Name.{device_name-eq_iff}
use a9_v.Runtime.{Host}
use a9_v.Pool.{PoolHost}
use a9_v.Pool.Health.{Connections, remove, IsKeyed}
use a9_v.Pool.Connections.{
  insert_connection, camera_of, new_connection, handle_new_tcp_connection, end_tcp_connection,
  tcp_message, handle_udp_message, Event, opens, message, datagram, ends, handle, after_events,
}
use a9_v.Pool.Connections.Keys.{IsAbsent, insert_connection-IsKeyed, remove-IsKeyed, stored_twice}

module _ {Value : Type 0} (host : Host Value) (pool : PoolHost Value) where
  tcp_message-IsAbsent :
      (k : Bytes) (now : ℕ) (j d : Bytes) (m : Connections)
      → IsAbsent k m
      → IsAbsent k (tcp_message host pool now j d m)
  unfolding tcp_message
  tcp_message-IsAbsent k now j d [] h = tt
  tcp_message-IsAbsent k now j d ((i, c) ∷ m) h =
      if_rule (IsAbsent k) (bytes_eq i j) h (h.0, tcp_message-IsAbsent k now j d m h.1)

  tcp_message-IsKeyed :
      (now : ℕ) (j d : Bytes) (m : Connections)
      → IsKeyed m
      → IsKeyed (tcp_message host pool now j d m)
  unfolding tcp_message
  tcp_message-IsKeyed now j d [] h = tt
  tcp_message-IsKeyed now j d ((i, c) ∷ m) h =
      if_rule IsKeyed (bytes_eq i j) h
        (tcp_message-IsAbsent i now j d m h.0, tcp_message-IsKeyed now j d m h.1)

  udp-IsAbsent :
      (k : Bytes) (ip : ℕ) (d : Bytes) (m : Connections)
      → IsAbsent k m
      → IsAbsent k (handle_udp_message host pool ip d m).0
  unfolding handle_udp_message
  udp-IsAbsent k ip d [] h = tt
  udp-IsAbsent k ip d ((i, c) ∷ m) h =
      if_rule (λ (r : Connections × Option ℕ). IsAbsent k r.0) (c.ip == ip) h
        (h.0, udp-IsAbsent k ip d m h.1)

  udp-IsKeyed :
      (ip : ℕ) (d : Bytes) (m : Connections)
      → IsKeyed m
      → IsKeyed (handle_udp_message host pool ip d m).0
  unfolding handle_udp_message
  udp-IsKeyed ip d [] h = tt
  udp-IsKeyed ip d ((i, c) ∷ m) h =
      if_rule (λ (r : Connections × Option ℕ). IsKeyed r.0) (c.ip == ip) h
        (udp-IsAbsent i ip d m h.0, udp-IsKeyed ip d m h.1)

  handle-IsKeyed : (e : Event) (m : Connections) → IsKeyed m → IsKeyed (handle host pool e m)
  unfolding handle_new_tcp_connection end_tcp_connection
  handle-IsKeyed (opens ip port socket times) m h = insert_connection-IsKeyed (device_name ip) _ m h
  handle-IsKeyed (message now j d) m h = tcp_message-IsKeyed now j d m h
  handle-IsKeyed (datagram ip d) m h = udp-IsKeyed ip d m h
  handle-IsKeyed (ends j) m h = remove-IsKeyed j m h

  after_events-IsKeyed : (es : List Event) → IsKeyed (after_events host pool es)
  after_events-IsKeyed [] = tt
  after_events-IsKeyed (e ∷ es) =
      handle-IsKeyed e (after_events host pool es) (after_events-IsKeyed es)

  -- After any events, let a camera open a TCP connection, and then another whose address ends in the
  -- same number. When the connection of the first ends, there is none under the id of the second
  -- either, and what is under any other id is as it was before the two came.
  pub end_tcp_connection_lem :
      (es : List Event) (ip ip' port port' socket socket' : ℕ) (t t' : ℕ × ℕ × ℕ) (k : Bytes)
      → ip % 256 ≡ ip' % 256
      → k ≢ device_name ip
      → let m = after_events host pool es in
        let opened =
          handle_new_tcp_connection ip' port' socket' t'
            (handle_new_tcp_connection ip port socket t m) in
        let left = end_tcp_connection (device_name ip) opened in
        (camera_of (device_name ip') left ≡ none) × (camera_of k left ≡ camera_of k m)
  unfolding handle_new_tcp_connection end_tcp_connection
  end_tcp_connection_lem es ip ip' port port' socket socket' t t' k e n =
      let same = (device_name-eq_iff ip ip').1 e in
      subst
        (λ j.
          let left = remove (device_name ip) (
            insert_connection j (new_connection ip' port' socket' t')
              (insert_connection (device_name ip) (new_connection ip port socket t) m)) in
          (camera_of j left ≡ none) × (camera_of k left ≡ camera_of k m))
        same
        (stored_twice (device_name ip) k (new_connection ip port socket t)
          (new_connection ip' port' socket' t') m (after_events-IsKeyed es) n)
    where
      m : Connections
      m = after_events host pool es
