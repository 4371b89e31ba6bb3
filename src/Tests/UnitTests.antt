-- ===== src/Tests/UnitTests.antt =====
-- The unit tests on a concrete platform.
use load_test_server.Prelude.{arith}
use load_test_server.Result.Succeeds.{Succeeds, Succeeds-pure}
use load_test_server.UnitTests.Statistics.{it_gets_stats}
use load_test_server.UnitTests.Passing.Statistics.{Punctual, it_gets_stats-Succeeds}
use load_test_server.External.Reliable.{Negotiates}
use load_test_server.Tests.{toy}
use load_test_server.Tests.Works.{reliable}

pub negotiates : Negotiates
negotiates = record {
  offer_created = λ pc. Succeeds-pure "offer";
  answer_created = λ pc. Succeeds-pure "answer";
  description_made = λ t text. Succeeds-pure text;
  local_set = λ pc d. Succeeds-pure tt;
  remote_set = λ pc d. Succeeds-pure tt;
  track_created = λ f label source. Succeeds-pure 0;
  track_added = λ pc ids track. Succeeds-pure tt;
  transceiver_added = λ pc ids d track. Succeeds-pure 0;
}

punctual : Punctual
punctual = record { not_early = λ w. omega arith; not_late = λ w. omega arith }

it_gets_stats-Succeeds_example : Succeeds it_gets_stats
it_gets_stats-Succeeds_example = it_gets_stats-Succeeds reliable punctual
