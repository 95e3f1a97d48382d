-- ===== src/Acquisition/Fetcher/Recorded.antt =====
-- What the fetcher returns can be recorded (acquisition/fetcher.py, recorder.py).
use data_hub_backend.Base.{String_eq}
use data_hub_backend.Acquisition.Lease.{Lease}
