-- ===== src/Consumer/Launch/Failures.antt =====
-- Which errors RunConsumer of consumer/consumer.go survives, and what it leaves.
use valtrack.Base.{
  String, str_eq, eq_iff, List, [], Bool, true, false, Option, none, some, is_none, Error, returns,
  panics, ◌≡◌, ◌≢◌, ◌↔◌, ◌⊎◌, refl, subst, inl, inr, arith, Bool-cases, Option-cases, Outcome-cases,
}
use valtrack.Clickhouse.{
  ClickhouseConfig, Options, ClickhouseClient, connection_options, new_clickhouse_client,
  start_client, start as start_batcher,
}
use valtrack.Consumer.Messages.{nil_deref}
use valtrack.Consumer.Messages.Fetching.{start}
use valtrack.Consumer.Tracker.{Tables, Parsers}
use valtrack.Consumer.Tracker.Setup.{load_ip_metadata_from_csv, setup_database}
use valtrack.Consumer.Launch.{
  ConsumerConfig, Calls, Launched, set_up_clickhouse, channel_of, prepare_tables, start_consuming,
  is_connected, copy_of, dune_of, launched, run_consumer, error_of, noted,
}

-- The client's channel is there exactly if there is an endpoint, and is read if both statements succeed.
abbrev IsSetUp :
    (Options → Option Error)
    → Option Error
    → Option Error
    → ClickhouseConfig
    → Option ClickhouseClient × Bool × List Error
    → Type 0
IsSetUp failed unmade untabled cfg (client, batcher, errors) =
    ((cfg.endpoint ≡ "") × (channel_of client ≡ none) × (batcher ≡ false))
    ⊎ ((cfg.endpoint ≢ "")
        × (failed (connection_options cfg) ≡ none)
        × (channel_of client ≡ some [])
        × ((batcher ≡ true) ↔ ((unmade ≡ none) × (untabled ≡ none))))

starts_iff :
    (cfg : ClickhouseConfig) (unmade untabled : Option Error)
    → (is_none (error_of (start_batcher cfg unmade untabled).1) ≡ true)
      ↔ ((unmade ≡ none) × (untabled ≡ none))
unfolding start_batcher
starts_iff cfg none none = ground arith
starts_iff cfg none (some e) = ground arith
starts_iff cfg (some e) untabled = ground arith

is_none-eq : {A : Type 0} (o : Option A) → is_none o ≡ true → o ≡ none
is_none-eq none h = refl
is_none-eq (some a) h = absurd (ground arith)

abbrev client_of : ClickhouseConfig → ClickhouseClient
client_of cfg = record { cfg = cfg; validator_event_chan = [] }

set_up_clickhouse-cases :
    (failed : Options → Option Error) (unmade untabled : Option Error) (cfg : ClickhouseConfig)
    → ((r : Option ClickhouseClient × Bool × List Error) × (set_up_clickhouse failed unmade untabled
            cfg
          ≡ returns r)
        × IsSetUp failed unmade untabled cfg r)
      ⊎ ((set_up_clickhouse failed unmade untabled cfg ≡ panics nil_deref)
          × (cfg.endpoint ≢ "")
          × (failed (connection_options cfg) ≢ none))
unfolding set_up_clickhouse new_clickhouse_client start_client
set_up_clickhouse-cases failed unmade untabled cfg = elim (Bool-cases (str_eq cfg.endpoint "")) [
  | inl e ↦ inl ((none, false, []), rw e refl, inl ((eq_iff cfg.endpoint "").0 e, refl, refl))
  | inr e ↦
      let there : cfg.endpoint ≢ "" = λ k. cc ((eq_iff cfg.endpoint "").1 k, e) in
      elim (Option-cases (failed (connection_options cfg))) [
        | inr (x, f) ↦ inr (rw (e, f, new_clickhouse_client) refl, there, λ k. cc)
        | inl f ↦
            let r = (start_batcher cfg unmade untabled).1 in
            inl (
              (
                some (client_of cfg),
                is_none (error_of r),
                noted "Error starting Clickhouse client" (error_of r),
              ),
              rw (e, f, new_clickhouse_client) refl,
              inr (there, f, refl, starts_iff cfg unmade untabled),
            )
      ]
]

dune_of-cases :
    (cfg : ConsumerConfig)
    → ((cfg.dune_api_key ≡ "") × (dune_of cfg ≡ none))
      ⊎ ((cfg.dune_api_key ≢ "")
          × (dune_of cfg
              ≡ some (record { namespace = cfg.dune_namespace; api_key = cfg.dune_api_key })))
unfolding dune_of
dune_of-cases cfg = elim (Bool-cases (str_eq cfg.dune_api_key "")) [
  | inl e ↦ inl ((eq_iff cfg.dune_api_key "").0 e, simp e refl)
  | inr e ↦ inr ((λ k. cc ((eq_iff cfg.dune_api_key "").1 k, e)), simp e refl)
]

module _ {F : Type 0} (P : Parsers F) where
  prepare_tables-cases :
      (calls : Calls F)
      → ((r : Tables F × List Error) × (prepare_tables P calls ≡ returns r)
          × (calls.open_db ≡ none)
          × (load_ip_metadata_from_csv P calls.csv calls.tables ≡ returns r.0))
        ⊎ ((m : String) × (prepare_tables P calls ≡ panics m)
            × ((calls.open_db ≡ none)
                → (t : Tables F) → load_ip_metadata_from_csv P calls.csv calls.tables ≢ returns t))
  unfolding prepare_tables
  prepare_tables-cases calls = elim (Option-cases calls.open_db) [
    | inr (x, e) ↦ inr (nil_deref, simp (e, prepare_tables) refl, λ k. absurd (ground arith))
    | inl e ↦ (elim (Outcome-cases (load_ip_metadata_from_csv P calls.csv calls.tables)) [
      | inl (t, f) ↦ inl (
        (
          t,
          noted "Error setting up database"
              (setup_database calls.tracker_table calls.ip_table calls.counts_table).1,
        ),
        simp (e, f, prepare_tables) refl,
        e,
        f,
      )
      | inr (m, f) ↦ inr (m, simp (e, f, prepare_tables) refl, λ _ t k. cc (f, k))
    ])
  ]

  start_consuming-cases :
      (js : Bool) (calls : Calls F)
      → ((js ≡ true)
          × (start_consuming P js calls ≡ returns (start calls.stream calls.create_consumer)))
        ⊎ ((js ≡ false) × (start_consuming P js calls ≡ panics nil_deref))
  unfolding start_consuming
  start_consuming-cases true calls = inl (refl, refl)
  start_consuming-cases false calls = inr (refl, refl)

  -- What RunConsumer cannot do without.
  abbrev pub HasAll : ConsumerConfig → Calls F → Type 0
  HasAll cfg calls =
      (calls.open_db ≡ none)
      × ((t : Tables F) × (load_ip_metadata_from_csv P calls.csv calls.tables ≡ returns t))
      × ((cfg.ch_cfg.endpoint ≡ "")
          ⊎ (calls.open_clickhouse (connection_options cfg.ch_cfg) ≡ none))
      × (calls.jetstream (is_connected P cfg calls) ≡ none)

  -- The consumer has written no row and passed on no event, the tables are those that were loaded, its ClickHouse channel is there exactly if an endpoint is configured,
  -- and the channel is read exactly if both statements succeed besides.
  pub record IsLaunched (cfg : ConsumerConfig) (calls : Calls F) (l : Launched F) : Type 0 where
    pub idle : l.consumer.validator_metadata_chan ≡ []
    pub discovery_rows : l.consumer.discovery_rows ≡ []
    pub metadata_rows : l.consumer.metadata_rows ≡ []
    pub validator_rows : l.consumer.validator_rows ≡ []
    pub loaded : load_ip_metadata_from_csv P calls.csv calls.tables ≡ returns l.tables
    pub channel :
        ((cfg.ch_cfg.endpoint ≡ "") × (l.consumer.validator_channel ≡ none) × (l.batcher ≡ false))
        ⊎ ((cfg.ch_cfg.endpoint ≢ "")
            × (l.consumer.validator_channel ≡ some [])
            × ((l.batcher ≡ true) ↔ ((calls.create_database ≡ none) × (calls.create_table ≡ none))))
    pub dune :
        ((cfg.dune_api_key ≡ "") × (l.dune ≡ none))
        ⊎ ((cfg.dune_api_key ≢ "")
            × (l.dune
                ≡ some (record { namespace = cfg.dune_namespace; api_key = cfg.dune_api_key })))
    pub token : l.token ≡ calls.ipinfo_token
    pub started : l.started ≡ start calls.stream calls.create_consumer

  pub run_consumer-cases :
      (cfg : ConsumerConfig) (calls : Calls F)
      → ((l : Launched F) × (run_consumer P cfg calls ≡ returns l)
          × HasAll cfg calls
          × IsLaunched cfg calls l)
        ⊎ ((m : String) × (run_consumer P cfg calls ≡ panics m) × (¬ HasAll cfg calls))
  unfolding run_consumer
  run_consumer-cases cfg calls = elim (prepare_tables-cases calls) [
    | inr (m, e, h) ↦ inr (m, simp (e, run_consumer) refl, λ a. h a.0 a.1.0 a.1.1)
    | inl (tables, e, o, loaded) ↦
        (elim (set_up_clickhouse-cases calls.open_clickhouse calls.create_database
          calls.create_table (copy_of cfg.ch_cfg)) [
            | inr (f, there, failed) ↦
                inr (nil_deref, simp (e, f, run_consumer) refl, λ a. without a.2 there failed)
            | inl (client, f, set) ↦
                (elim (start_consuming-cases (is_none (calls.jetstream (is_connected P cfg calls)))
                  calls) [
                    | inr (js_nil, g) ↦
                        inr (nil_deref, simp (e, f, g, run_consumer) refl, λ a. ground (arith, a.3))
                    | inl (made, g) ↦ inl (
                      launched P cfg calls tables client (start calls.stream calls.create_consumer),
                      simp (e, f, g, run_consumer) refl,
                      (o, (tables.0, loaded), opened client set, is_none-eq _ made),
                      record {
                        idle = refl;
                        discovery_rows = refl;
                        metadata_rows = refl;
                        validator_rows = refl;
                        loaded = loaded;
                        channel = channelled client set;
                        dune = dune_of-cases cfg;
                        token = refl;
                        started = refl;
                      },
                    )
                  ])
          ])
  ]
    where
      without :
          (cfg.ch_cfg.endpoint ≡ "")
            ⊎ (calls.open_clickhouse (connection_options cfg.ch_cfg) ≡ none)
          → cfg.ch_cfg.endpoint ≢ ""
          → calls.open_clickhouse (connection_options cfg.ch_cfg) ≢ none
          → ⊥
      without (inl e) there failed = there e
      without (inr e) there failed = failed e

      opened :
          (r : Option ClickhouseClient × Bool × List Error)
          → IsSetUp calls.open_clickhouse calls.create_database calls.create_table cfg.ch_cfg r
          → (cfg.ch_cfg.endpoint ≡ "")
            ⊎ (calls.open_clickhouse (connection_options cfg.ch_cfg) ≡ none)
      opened r (inl (e, _, _)) = inl e
      opened r (inr (_, e, _, _)) = inr e

      channelled :
          (r : Option ClickhouseClient × Bool × List Error)
          → IsSetUp calls.open_clickhouse calls.create_database calls.create_table cfg.ch_cfg r
          → ((cfg.ch_cfg.endpoint ≡ "") × (channel_of r.0 ≡ none) × (r.1 ≡ false))
            ⊎ ((cfg.ch_cfg.endpoint ≢ "")
                × (channel_of r.0 ≡ some [])
                × ((r.1 ≡ true) ↔ ((calls.create_database ≡ none) × (calls.create_table ≡ none))))
      channelled r (inl h) = inl h
      channelled r (inr (there, _, c, b)) = inr (there, c, b)

  -- RunConsumer comes up exactly if the database opens, the addresses are loaded without a panic,
  -- the ClickHouse client is made if an endpoint is configured, and a JetStream is made; in every
  -- other case it panics.
  pub run_consumer-returns_iff :
      (cfg : ConsumerConfig) (calls : Calls F)
      → ((l : Launched F) × (run_consumer P cfg calls ≡ returns l)) ↔ HasAll cfg calls
  run_consumer-returns_iff cfg calls = elim (run_consumer-cases cfg calls) [
    | inl (l, e, has, _) ↦ ((λ _. has), (λ _. (l, e)))
    | inr (m, e, lacks) ↦ ((λ r. cc (e, r.1)), (λ has. absurd (lacks has)))
  ]

  -- When RunConsumer comes up, its consumer has no row for any of the three files and no event for
  -- the tracker, the tables are those that loading the addresses made, its ClickHouse channel is
  -- there, and empty, exactly if an endpoint is configured, the rows on it are read exactly if both
  -- statements of the client's Start succeed besides, its Dune client is there, with the configured
  -- namespace and key, exactly if a key is configured, the tracker has the configured token of the
  -- IP service, and the result of the consumer's own Start is kept as it is.
  pub run_consumer-IsLaunched :
      (cfg : ConsumerConfig) (calls : Calls F) (l : Launched F)
      → run_consumer P cfg calls ≡ returns l
      → IsLaunched cfg calls l
  run_consumer-IsLaunched cfg calls l h = elim (run_consumer-cases cfg calls) [
    | inl (l', e, _, is) ↦
        let same : l' ≡ l = ground (arith, e, h) in subst (IsLaunched cfg calls) same is
    | inr (m, e, _) ↦ absurd (cc (e, h))
  ]
