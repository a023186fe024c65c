-- ===== src/Examples/Capabilities.antt =====
-- The owner of the host capabilities in a few short runs.
use deskkin.Prelude.Results.{err, is_ok}
use deskkin.Prelude.{◌≡◌, refl, true, false, List, [], ◌∷◌}
use deskkin.HostCapabilities as Host
use deskkin.HostCapabilities.{
  HostCapabilities, DeterministicAvailability, CapabilityFailure, CapabilityRequest, RoutedRequest,
  CapabilityEffectId, ConnectorCompletion, ConnectorRequest, ConnectorResult, availability_read,
  deterministic_availability, Lifecycle, ready,
}
use deskkin.HostCapabilities.Laws.{Call, call, run, completion_accepted_once}

abbrev first : CapabilityEffectId
first = record { capability = availability_read; connector = deterministic_availability; local = 1 }

abbrev late : ConnectorResult
late = ConnectorResult.availability (err CapabilityFailure.timeout)

abbrev again : ConnectorCompletion
again = record { id = first; result = late }

abbrev before : List Call
before = Call.lifecycle Lifecycle.start ∷ Call.route CapabilityRequest.read_availability ∷ []

abbrev configured : DeterministicAvailability
configured = DeterministicAvailability.timeout

waits : is_ok (Host.complete again (run before (Host.new configured))).0 ≡ true
unfolding Host.complete run call Host.new Host.lifecycle Host.route
waits = refl

completion_accepted_once_example :
    is_ok
      (Host.complete again
        (run (Call.complete again ∷ before) (run before (Host.new configured)))).0
    ≡ false
completion_accepted_once_example =
    completion_accepted_once configured before before again again waits refl
