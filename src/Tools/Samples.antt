-- ===== src/Tools/Samples.antt =====
-- Services that answer every request with one response, whose body is read once.
use supallm.Common.{ℕ, zero, suc, String, true, Result, ok, error}
use supallm.Values.{str}
use supallm.Nodes.{Error, message}
use supallm.Tools.{Response, Services}

abbrev pub used : Error
used = message "Body is unusable"

abbrev read_once : ℕ → Result String Error
read_once zero = ok "body"
read_once (suc n) = error used

abbrev pub response : Response
response = record {
  is_ok = true;
  status = str "200";
  status_text = "OK";
  reads = read_once;
  jsons = λ n. error used;
}

abbrev pub services : Services
services = record {
  fetch = λ request. ok response;
  decrypt = λ s. ok s;
  stringify = λ v. "{}";
  to_text = λ v. "text";
  query_text = λ pairs. "";
  error_text = λ e. "Error";
  error_message = λ e. "message";
  error_value = λ e. str "Error";
  invoke = λ model prompt input. ok input;
  connect = λ url. ok tt;
  query = λ url pieces values. error used;
  close = λ url n. ok tt;
  scrape_url = λ key url parameters. error used;
}
