-- ===== src/Ffi/Conversation/Laws.antt =====
-- lib/endb_lib/src/lib.rs, `endb_start_server`: the exchange as the history of the engine's calls.
use endb.Prelude.{
  ℕ, ◌+◌, String, Bool, true, false, Option, none, some, List, [], ◌∷◌, ◌++◌, ◌≡◌, ◌⊎◌, refl, subst,
  sym, Option-cases, Bool-cases, inl, inr,
}
use endb.Server.Http.{Libraries, Bytes}
use endb.Server.Response.{Response, on_response_init}
use endb.Ffi.Conversation.{
  Engaged, done, init, send, Fed, taken, refused, blocked, Channels, Exchange, start, Ended,
  returned, stuck, double_free, take_box, deliver, not_listening, converse,
}

-- a call that came back: of the first callback, or of the second with whether the chunk was taken
pub data Step : Type 0 where
  initiated : ℕ → String → Step
  sent : Bytes → Bool → Step

-- what there is to say of the calls so far, the latest one first
unfoldable pub first_init : List Step → Option (ℕ × String)
first_init [] = none
first_init (sent body accepted ∷ history) = first_init history
first_init (initiated status content_type ∷ history) = elim (first_init history) [
  | none ↦ some (status, content_type)
  | some earlier ↦ some earlier
]

unfoldable pub chunks_taken : List Step → List Bytes
chunks_taken [] = []
chunks_taken (sent body true ∷ history) = chunks_taken history ++ (body ∷ [])
chunks_taken (sent body false ∷ history) = chunks_taken history
chunks_taken (initiated status content_type ∷ history) = chunks_taken history

unfoldable pub sends : List Step → ℕ
sends [] = 0
sends (sent body accepted ∷ history) = sends history + 1
sends (initiated status content_type ∷ history) = sends history

-- the calls that failed: refused chunks, and responses without a receiver
unfoldable pub failures : Bool → List Step → ℕ
failures listening [] = 0
failures listening (sent body true ∷ history) = failures listening history
failures listening (sent body false ∷ history) = failures listening history + 1
failures true (initiated status content_type ∷ history) = failures true history
failures false (initiated status content_type ∷ history) = failures false history + 1

abbrev pub received : Libraries → Response → Option (ℕ × String) → Bool → Option Response
received lib response none listening = none
received lib response (some (status, content_type)) true =
    some (on_response_init lib response status content_type)
received lib response (some answer) false = none

abbrev pub unused : Response → Option (ℕ × String) → Option Response
unused response none = some response
unused response (some answer) = none

unfoldable pub outcome_of : Libraries → Channels → Response → List Step → Exchange
unfolding first_init chunks_taken sends failures
outcome_of lib ch response history = record {
  boxed = unused response (first_init history);
  delivered = received lib response (first_init history) ch.listening;
  chunks = chunks_taken history;
  fed = sends history;
  aborts = failures ch.listening history;
}

-- the engine at some point of its work, and its calls until then
pub data Reached (ch : Channels) (engine : Engaged) : List Step → Engaged → Type 0 where
  begun : Reached ch engine [] engine
  after_init :
      {history : List Step} {status : ℕ} {content_type : String} {k : Bool → Engaged}
      → Reached ch engine history (init status content_type k)
      → Reached ch engine (initiated status content_type ∷ history) (k (not_listening ch.listening))
  after_taken :
      {history : List Step} {body : Bytes} {k : Bool → Engaged}
      → Reached ch engine history (send body k)
      → ch.feed (sends history) ≡ taken
      → Reached ch engine (sent body true ∷ history) (k false)
  after_refused :
      {history : List Step} {body : Bytes} {k : Bool → Engaged}
      → Reached ch engine history (send body k)
      → ch.feed (sends history) ≡ refused
      → Reached ch engine (sent body false ∷ history) (k true)

-- how an exchange ends
pub data Explained (lib : Libraries) (ch : Channels) (response : Response) (engine : Engaged)
    : Ended → Type 0 where
  returns :
      (history : List Step)
      → Reached ch engine history done
      → Explained lib ch response engine (returned (outcome_of lib ch response history))
  blocks :
      (history : List Step) (body : Bytes) (k : Bool → Engaged)
      → Reached ch engine history (send body k)
      → ch.feed (sends history) ≡ blocked
      → Explained lib ch response engine (stuck (outcome_of lib ch response history))
  initiates_twice :
      (history : List Step) (status : ℕ) (content_type : String) (k : Bool → Engaged)
      → Reached ch engine history (init status content_type k)
      → {answer : ℕ × String} → first_init history ≡ some answer
      → Explained lib ch response engine double_free

pub Fed-cases : (f : Fed) → (f ≡ taken) ⊎ ((f ≡ refused) ⊎ (f ≡ blocked))
Fed-cases taken = inl refl
Fed-cases refused = inr (inl refl)
Fed-cases blocked = inr (inr refl)

module _ (lib : Libraries) (ch : Channels) (response : Response) where
  delivered_lem :
      (history : List Step) (status : ℕ) (content_type : String)
      → first_init history ≡ none
      → deliver ch.listening
          (on_response_init lib response status content_type)
          (outcome_of lib ch response history)
        ≡ outcome_of lib ch response (initiated status content_type ∷ history)
  unfolding outcome_of
  delivered_lem history status content_type e = elim (Bool-cases ch.listening) [
    | inl l ↦ simp (e, l) refl
    | inr l ↦ simp (e, l) refl
  ]

  open_box :
      {engine : Engaged} (answer : Option (ℕ × String)) (k : Response → Ended)
      → answer ≡ none
      → Explained lib ch response engine (k response)
      → Explained lib ch response engine (take_box (unused response answer) k)
  open_box answer k e h = rw e h

  converse_from :
      (engine here : Engaged) (history : List Step)
      → Reached ch engine history here
      → Explained lib ch response engine (converse lib ch here (outcome_of lib ch response history))
  unfolding converse outcome_of
  converse_from engine done history p = returns history p
  converse_from engine (init status content_type k) history p =
      elim (Option-cases (first_init history)) [
        | inr (answer, e) ↦ simp e (initiates_twice history status content_type k p e)
        | inl e ↦
            let next = converse_from engine (k (not_listening ch.listening)) _ (after_init p) in
            open_box (first_init history) _ e (
              subst
                (λ x.
                  Explained lib ch response engine
                    (converse lib ch (k (not_listening ch.listening)) x))
                (sym (delivered_lem history status content_type e)) next)
      ]
  converse_from engine (send body k) history p = elim (Fed-cases (ch.feed (sends history))) [
    | inl e ↦ let next = converse_from engine (k false) _ (after_taken p e) in rw e next
    | inr (inl e) ↦ let next = converse_from engine (k true) _ (after_refused p e) in rw e next
    | inr (inr e) ↦ simp e (blocks history body k p e)
  ]

  -- An exchange is told by the calls of the engine that came back: the client has the response that
  -- the first `on_response_init` makes, if it was there, and the chunks that were taken, in order;
  -- `on_abort` was called once for each call that failed. The exchange ends when the engine is done,
  -- or stays in a chunk that nobody takes, or frees the response twice, and this only if the engine
  -- calls `on_response_init` twice.
  pub converse-Explained :
      (engine : Engaged)
      → Explained lib ch response engine (converse lib ch engine (start response))
  unfolding outcome_of
  converse-Explained engine = converse_from engine engine [] begun
