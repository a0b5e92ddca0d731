-- ===== src/Chat/Logged.antt =====
-- What the usage rows tell of a request that app/api/chat.py has answered without a stream.
use mathlib.Core.List.{append_assoc}
use noxis_api_provider.Prelude.{
  ℕ, String, ◌≡◌, refl, sym, ap, subst, ◌∙◌, Bool, false, Option, none, some, List, [], ◌∷◌, ◌++◌,
  ◌>>=◌, ℤ, inl, inr, Bool-cases, Option-cases, is_negative, if_intro, if◌then◌else◌,
}
use noxis_api_provider.Float.{Float}
use noxis_api_provider.Json
use noxis_api_provider.Json.{Json, Items, as_dict, iterate, is_truthy}
use noxis_api_provider.Schemas.{ChatCompletionRequest}
use noxis_api_provider.Provider.{ProviderResult}
use noxis_api_provider.CircuitBreaker.{Random}
use noxis_api_provider.Adapter.{Python}
use noxis_api_provider.Usage.{UsageRecord}
use noxis_api_provider.Scheduler.{
  Shared, Scheduler, Verdict, served, service_unavailable, propagated, execute,
}
use noxis_api_provider.Chat.Normalize.{
  Values, ChatCompletionResponse, normalize_chat_response, choices_from, usage_of, as_str,
}
use noxis_api_provider.Cache.{ResponseCache}
use noxis_api_provider.Chat.State.{Desk, measure, write_row}
use noxis_api_provider.Chat.Exchange.{
  Library, World, Reply, completion, refused, unavailable, crashed, stream, all_failed,
}
use noxis_api_provider.Chat.Sync.{
  store, finish, book, look_up, success_row, plain_row, after_served, after_execute, after_look_up,
  ask, sync_response,
}

-- The provider that an answer names is the one that served it.
Names : String → Option ChatCompletionResponse → Type 0
Names name none = Unit
Names name (some response) = response.noxis_provider ≡ some name

Names-bind :
    {A : Type 0} (name : String) (o : Option A) (g : A → Option ChatCompletionResponse)
    → ((a : A) → Names name (g a))
    → Names name (o >>= g)
unfolding Names
Names-bind name none g h = tt
Names-bind name (some a) g h = h a

normalize-Names :
    (values : Values) (new_id : String) (now : ℤ) (raw : Json) (model name : String)
    → Names name (normalize_chat_response values new_id now raw model name)
unfolding normalize_chat_response Names
normalize-Names values new_id now raw model name = Names-bind name (as_dict raw) _ (λ fs.
    Names-bind name (iterate (Json.get_or "choices" (Json.arr Items.nil) fs)) _ (λ cs.
      Names-bind name (choices_from values 0 cs) _ (λ choices.
        Names-bind name (usage_of values fs) _ (λ usage.
          let given = Json.get_or "id" Json.null fs in
          Names-bind name
            (as_str (if is_truthy values.is_zero given then given else Json.str new_id)) _
            (λ id.
              Names-bind name (values.as_int (Json.get_or "created" (Json.int now) fs)) _
                (λ created.
                  Names-bind name (as_str (Json.get_or "model" (Json.str model) fs)) _
                    (λ m. refl)))))))

module _ {ℓ} {F : Type ℓ} where
  -- A row of the list, with its place.
  pub record Row (rows : List (UsageRecord F)) : Type ℓ where
    pub row : UsageRecord F
    pub before : List (UsageRecord F)
    pub after : List (UsageRecord F)
    pub place : rows ≡ before ++ row ∷ after

  -- Of an answer there is a row with its provider, model and tokens; of a refusal one with its code.
  abbrev pub Logged : String → String → Reply → List (UsageRecord F) → Type ℓ
  Logged key_id model (completion response) rows =
      (r : Row rows) × (r.row.status ≡ "success")
      × (r.row.gateway_key_id ≡ key_id)
      × (r.row.requested_model ≡ model)
      × (some r.row.provider ≡ response.noxis_provider)
      × (r.row.model ≡ response.model)
      × (r.row.prompt_tokens ≡ response.usage.prompt_tokens)
      × (r.row.completion_tokens ≡ response.usage.completion_tokens)
      × (r.row.total_tokens ≡ response.usage.total_tokens)
  Logged key_id model (unavailable last) rows =
      (r : Row rows) × (r.row.status ≡ "error")
      × (r.row.gateway_key_id ≡ key_id)
      × (r.row.requested_model ≡ model)
      × (r.row.error_code ≡ some all_failed)
  Logged key_id model (refused e) rows = Unit
  Logged key_id model crashed rows = Unit
  Logged key_id model (stream events fails) rows = Unit

module _ {ℓ} {F : Type ℓ} {C : Type 0} where
  -- While this request writes its row, others only add to the table.
  abbrev pub OnlyAdds : World F C → Type ℓ
  OnlyAdds w =
      (d : Desk F C) → (more : List (UsageRecord F)) × ((w.writing d).rows ≡ d.rows ++ more)

  written :
      (w : World F C) (row : UsageRecord F) (d : Desk F C)
      → OnlyAdds w
      → (r : Row (w.writing (write_row row d)).rows) × (r.row ≡ row)
  unfolding write_row
  written w row d adds =
      let (more, e) = adds (write_row row d) in
      (
        record {
          row = row;
          before = d.rows;
          after = more;
          place = e ∙ append_assoc d.rows (row ∷ []) more;
        },
        refl,
      )

module _ {ℓ} {F : Type ℓ} {C : Type 0} ⦃k : ResponseCache C⦄ where
  store-rows :
      (lib : Library) (on : Bool) (now : ℕ) (r : ChatCompletionRequest)
      (response : ChatCompletionResponse) (d : Desk F C)
      → (store lib on now r response d).1.rows ≡ d.rows
  unfolding store
  store-rows lib on now r response d =
      if_intro (λ (x : Bool × Desk F C). x.1.rows ≡ d.rows) on _ _ (λ _. refl) (λ _. refl)

  -- The write to the cache leaves the rows alone.
  finish-Logged :
      (lib : Library) (w : World F C) (on : Bool) (key_id : String) (r : ChatCompletionRequest)
      (response : ChatCompletionResponse) (d : Desk F C)
      → Logged key_id r.model (completion response) d.rows
      → let (reply, d') = finish lib w on r response d in Logged key_id r.model reply d'.rows
  unfolding finish
  finish-Logged lib w on key_id r response d logged =
      elim (Bool-cases (store lib on w.stored_at r response d).0) [
        | inl e ↦ rw (e, finish) tt
        | inr e ↦
            rw (e, finish)
              (subst (λ rows. Logged key_id r.model (completion response) rows)
                (sym (store-rows lib on w.stored_at r response d)) logged)
      ]

module _ {ℓ} {F : Type ℓ} {C : Type 0} ⦃f : Float F⦄ ⦃k : ResponseCache C⦄ (lib : Library)
    (w : World F C) (adds : OnlyAdds w) where
  book-Row :
      (key_id : String) (r : ChatCompletionRequest) (result : ProviderResult) (name : String)
      (response : ChatCompletionResponse) (d : Desk F C)
      → (x : Row (book w key_id r result name response d).rows) × (x.row
          ≡ success_row w key_id r result name response)
  unfolding book
  book-Row key_id r result name response d =
      written w (success_row w key_id r result name response) (measure _ d) adds

  after_served-Logged :
      (on : Bool) (key_id : String) (r : ChatCompletionRequest) (result : ProviderResult)
      (name : String) (response : ChatCompletionResponse) (d : Desk F C)
      → response.noxis_provider ≡ some name
      → let (reply, d') = after_served lib w on key_id r result name response d in
        Logged key_id r.model reply d'.rows
  unfolding after_served success_row
  after_served-Logged on key_id r result name response d named =
      elim (Bool-cases (is_negative response.usage.prompt_tokens)) [
        | inl e ↦ rw (e, after_served) tt
        | inr e ↦ elim (Bool-cases (is_negative response.usage.completion_tokens)) [
          | inl g ↦ rw (e, g, after_served) tt
          | inr g ↦
              let (x, same) = book-Row key_id r result name response d in
              rw (e, g, after_served)
                (finish-Logged lib w on key_id r response (book w key_id r result name response d) (
                  x,
                  ap (λ (u : UsageRecord F). u.status) same,
                  ap (λ (u : UsageRecord F). u.gateway_key_id) same,
                  ap (λ (u : UsageRecord F). u.requested_model) same,
                  ap (λ (u : UsageRecord F). some u.provider) same ∙ sym named,
                  ap (λ (u : UsageRecord F). u.model) same,
                  ap (λ (u : UsageRecord F). u.prompt_tokens) same,
                  ap (λ (u : UsageRecord F). u.completion_tokens) same,
                  ap (λ (u : UsageRecord F). u.total_tokens) same,
                ))
        ]
      ]

  after_execute-Logged :
      (on : Bool) (key_id : String) (r : ChatCompletionRequest) (v : Verdict) (d : Desk F C)
      → let (reply, d') = after_execute lib w on key_id r v d in Logged key_id r.model reply d'.rows
  unfolding after_execute plain_row
  after_execute-Logged on key_id r (served result name) d =
      let names = normalize-Names lib.values w.new_id w.created result.raw r.model name in
      elim (Option-cases
        (normalize_chat_response lib.values w.new_id w.created result.raw r.model name)) [
          | inl e ↦ rw (e, after_execute) tt
          | inr (response, e) ↦
              rw (e, after_execute)
                (after_served-Logged on key_id r result name response d
                  (unfold Names in subst (Names name) e names))
        ]
  after_execute-Logged on key_id r (service_unavailable last) d =
      let (x, same) =
        written w (plain_row w key_id r "none" "none" "error" (some all_failed) false) (measure _ d)
          adds in
      (
        x,
        ap (λ (u : UsageRecord F). u.status) same,
        ap (λ (u : UsageRecord F). u.gateway_key_id) same,
        ap (λ (u : UsageRecord F). u.requested_model) same,
        ap (λ (u : UsageRecord F). u.error_code) same,
      )
  after_execute-Logged on key_id r propagated d = tt

  -- Every answer but one of the cache is on record: where a request is not found in the cache and others
  -- only add to the table of usage, an answer has a row with the caller's key, the model asked for, the
  -- provider that the answer names, and its model and tokens; and a refusal for want of a provider has
  -- one with its code.
  pub sync_response-Logged :
      (py : Python) (rnd : Random) (c : Scheduler) (on : Bool) (key_id : String)
      (r : ChatCompletionRequest) (s : Shared F) (d : Desk F C)
      → (look_up lib on w.looked_at r d).0 ≡ some none
      → let a = sync_response lib py rnd c w on key_id r s d in
        Logged key_id r.model a.reply a.desk.rows
  unfolding sync_response after_look_up ask
  sync_response-Logged py rnd c on key_id r s d misses =
      rw (misses, sync_response)
        (after_execute-Logged on key_id r (execute py rnd c w.called_at r w.rounds s).verdict
          (w.meanwhile (look_up lib on w.looked_at r d).1))
