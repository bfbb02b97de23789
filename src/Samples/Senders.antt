-- ===== src/Samples/Senders.antt =====
-- The theorems on reports to two senders, one of which has sent the report before.
use kausality.Base.{String, ℕ, pos, true, [], ◌∷◌, map, none, some, ok, err, ◌≡◌, refl, arith}
use kausality.Callback.Multi.{
  SenderConfig, Files, Networks, Sender, fresh_sender, with_defaults, new_multi_sender,
  multi_send_async, multi_mark_resolved,
}
use kausality.Callback.Fanout.{Grows, requests, multi_send_async-repeated}
use kausality.Samples.Callbacks.{flaky, counts, report}

abbrev networks : Networks
networks = record { network = λ c. flaky; start = λ c. 0 }

abbrev files : Files
files = record { read_file = λ name. err "no such file"; has_certificates = λ text. true }

abbrev config : String → String → SenderConfig
config url ca_file = record {
  url = url;
  ca_file = ca_file;
  timeout = pos 0;
  retry_count = pos 0;
  retry_interval = pos 5;
}

abbrev plain : Sender networks
plain = fresh_sender networks (with_defaults (config "https://a" ""))

abbrev warm : Sender networks
warm = record {
  config = config "https://b" "";
  state = record { tracker = record { ids = ("d1", 900) ∷ []; ttl = 600 }; net = 7 };
}

-- The requests that the receiver of a sender has seen.
abbrev seen : (c : SenderConfig) → ℕ → ℕ
seen c w = w

test-made :
    (new_multi_sender networks files (config "" "ca" ∷ config "https://a" "" ∷ [])
      ≡ ok (some (plain ∷ [])))
    × (new_multi_sender networks files (config "" "" ∷ []) ≡ ok none)
    × (new_multi_sender networks files (config "https://a" "ca" ∷ [])
        ≡ err "failed to read CA file: no such file")
unfolding new_multi_sender
test-made = (refl, refl, refl)

multi_send_async-repeated_example :
    let first =
      multi_send_async networks 100 report
        (multi_mark_resolved networks "d1" (plain ∷ warm ∷ [])) in
    Grows (0 ∷ 7 ∷ []) (map (requests networks seen) first)
    × (multi_send_async networks 699 report first ≡ first)
unfolding with_defaults
multi_send_async-repeated_example =
    multi_send_async-repeated networks seen (λ c. counts) (λ c. refl) 100 699 report
      (plain ∷ warm ∷ []) refl
      ((omega arith, (3, refl), ("d1", refl)), ((omega arith, (0, refl), ("d1", refl)), tt))
