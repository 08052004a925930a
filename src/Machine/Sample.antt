-- ===== src/Machine/Sample.antt =====
-- A host for the tests: commands end well and say nothing, and no effect is refused.
use xaac_thin_client_os.Base.{true, false, none, []}
use xaac_thin_client_os.Machine.{Host, completed, blob}

abbrev pub plain_host : Host
plain_host = record {
  exec = λ n command d. (completed 0 "" "", d);
  fault = λ n e. none;
  sha256 = λ c. "h";
  size = λ c. 1;
  mtime = λ n p. n;
  executable = λ p. true;
  now = λ n. "now";
  new_id = λ n. "id";
  late = λ n. false;
  int_of = λ s. none;
  pack = λ ms d. blob 3;
  members = λ c. [];
  unpack = λ c d. d;
  text_of = λ c. none;
  replaced = λ c. "";
  encode = λ s. blob 4;
  free_bytes = λ n. 9;
  repr = λ v. "r";
  dumps = λ v. "{}";
  digest = λ v. "d";
  kernel = "6.12";
  root_usage = λ n. (100, 40, 60);
  percent = λ used total. used;
  seconds = λ n. 1000;
  int_of_float = λ s. none;
  which = λ s. none;
}
