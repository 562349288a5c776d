-- ===== src/Util/Log.antt =====
-- logging/Logger.cpp: the registered threads, the counter of the messages, and the text of a line. The
-- codes of the terminal colours and the time of day are parameters, as are the ids of threads.
use distributed_monitor.Base.{
  ℕ, ◌+◌, ◌%◌, ◌^◌, ◌≡◌, ◌≢◌, refl, List, [], ◌∷◌, ◌++◌, ◌==◌, if◌then◌else◌, arith, Bytes,
}
use distributed_monitor.Communication.Clock.{Communicator}
use distributed_monitor.Util.Print.{to_string, get_formatted_number}

-- What a colour and a style write to a terminal; 0 is the value that resets a style, and a thread that
-- is not registered has colour 0.
pub record Terminal : Type 0 where
  pub fg : ℕ → Bytes
  pub fg_reset : Bytes
  pub style : ℕ → Bytes
  pub bg_reset : Bytes

pub record ThreadInfo : Type 0 where
  pub friendly_name : Bytes
  pub color : ℕ

pub record Logger : Type 0 where
  pub threads : List (ℕ × ThreadInfo)
  pub log_message_counter : ℕ  -- unsigned
  pub communicator : Communicator

unfoldable pub init : Communicator → Logger → Logger
init c l = record l { communicator = c }

-- `threads[id] = info`
unfoldable pub put : ℕ → ThreadInfo → List (ℕ × ThreadInfo) → List (ℕ × ThreadInfo)
put id info [] = (id, info) ∷ []
put id info ((j, other) ∷ ts) = if j == id then (id, info) ∷ ts else (j, other) ∷ put id info ts

unfoldable pub register_thread : ℕ → Bytes → ℕ → Logger → Logger
unfolding put
register_thread id name color l = record l {
  threads = put id (record { friendly_name = name; color = color }) l.threads;
}

-- `threads[id]`, an empty name with colour 0 for a thread that has not registered
unfoldable pub info_of : ℕ → List (ℕ × ThreadInfo) → ThreadInfo
info_of id [] = record { friendly_name = []; color = 0 }
info_of id ((j, info) ∷ ts) = if j == id then info else info_of id ts

-- "[TS ", " Process ", " Thread " and "]: "
abbrev pub stamp_label : Bytes
stamp_label = 91 ∷ 84 ∷ 83 ∷ 32 ∷ []

abbrev pub process_label : Bytes
process_label = 32 ∷ 80 ∷ 114 ∷ 111 ∷ 99 ∷ 101 ∷ 115 ∷ 115 ∷ 32 ∷ []

abbrev pub thread_label : Bytes
thread_label = 32 ∷ 84 ∷ 104 ∷ 114 ∷ 101 ∷ 97 ∷ 100 ∷ 32 ∷ []

abbrev pub text_label : Bytes
text_label = 93 ∷ 58 ∷ 32 ∷ []

-- What `log` of thread `id` writes at the time `now`, and the logger after it. `threads[id]` enters a
-- thread that has not registered.
unfoldable pub log : Terminal → Bytes → ℕ → Bytes → Bytes → Bytes → Logger → Bytes × Logger
unfolding put info_of
log terminal now id message color style_code l =
    let info = info_of id l.threads in
    (
      stamp_label
          ++ (get_formatted_number l.communicator.current_lamport_time
              ++ (58
                  ∷ (get_formatted_number l.log_message_counter
                      ++ (32
                          ∷ (now
                              ++ (process_label
                                  ++ (to_string l.communicator.my_process_id
                                      ++ (terminal.fg info.color
                                          ++ (thread_label
                                              ++ (info.friendly_name
                                                  ++ (terminal.fg_reset
                                                      ++ (text_label
                                                          ++ (color
                                                            ++ (style_code
                                                            ++ (terminal.style 0
                                                            ++ (message
                                                            ++ (terminal.style 0
                                                            ++ (terminal.fg_reset
                                                            ++ (terminal.bg_reset
                                                            ++ 10 ∷ []))))))))))))))))))),
      record l {
        threads = put id info l.threads;
        log_message_counter = (l.log_message_counter + 1) % 2 ^ 32;
      },
    )

info_of-put :
    (id other : ℕ) (info : ThreadInfo) (ts : List (ℕ × ThreadInfo))
    → info_of other (put id info ts) ≡ (if id == other then info else info_of other ts)
unfolding info_of put
info_of-put id other info [] = refl
info_of-put id other info ((j, x) ∷ ts) = ground (arith, info_of-put id other info ts)

-- A thread is known by the name and the colour that it registered last, also after other threads have
-- registered and after any thread has written a line; each line takes the next number.
pub log-register_thread :
    (terminal : Terminal) (now message color style_code name : Bytes) (id other writer c d : ℕ)
    (other_name : Bytes) (l : Logger)
    → id ≢ other
    → let l' = register_thread other other_name d (register_thread id name c l) in
      (info_of id (log terminal now writer message color style_code l').1.threads
        ≡ record { friendly_name = name; color = c })
      × ((log terminal now writer message color style_code l').1.log_message_counter
          ≡ (l.log_message_counter + 1) % 2 ^ 32)
unfolding log register_thread
log-register_thread terminal now message color style_code name id other writer c d other_name l ne =
    let mine : ThreadInfo = record { friendly_name = name; color = c } in
    let theirs : ThreadInfo = record { friendly_name = other_name; color = d } in
    let ts = put id mine l.threads in
    let us = put other theirs ts in
    (
      ground (
        arith,
        info_of-put writer id (info_of writer us) us,
        info_of-put other id theirs ts,
        info_of-put id id mine l.threads,
      ),
      refl,
    )
