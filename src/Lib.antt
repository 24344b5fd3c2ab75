-- ===== src/Lib.antt =====
-- The C++ programs of smoll, modelled and verified.
--
-- The repository is a collection of small programs. Each models a part of a network stack or tries
-- a feature of the language; they share no code, but several solve the same task (an HTTP client
-- twice, a DHT proxy three times), and the libraries below them are the same: asio, restinio,
-- http_parser, GnuTLS, OpenDHT. A library is never defined here. It is a record of functions that a
-- section takes as a parameter, and what a theorem needs of it is a hypothesis by name.
--
-- Base           names and lemmas that all files share: tests on numbers, lists, text as bytes,
--                decimal numbers. A text is a list of bytes; a map is an association list.
-- Async          cpp/async/nonblocking. Net is the interface to asio, with the socket's type and the
--                outcome of every call left open. Server is server.cpp (and nonblocking.cpp, the same
--                text): Session, Connection, Server, each handler a function on the state; a handler
--                that waits inside asio is an entry of the connection's list of waits, and a run is
--                any sequence of completions with any error codes. Server.Service is what the server
--                promises, with no sessions or buffers, and Server.Refinement relates the two step by
--                step. Server.Isolation has each connection alone. Client is client.cpp in the same way, with the resolver's closures and the exception of
--                connect. Loopback has the client and the server at the two ends of a connection, and
--                Programs is main of both, from their arguments.
--                Posting is client2.cpp: the queue of posted requests, the resolver's handler on every
--                branch, and main; Posting.Connection has that handler on a socket with asio's blocking
--                calls, and Posting.Connection.Echo joins it to server.cpp.
-- Http           cpp/restinio. Request is create_http_request, byte for byte, and a reader of HTTP
--                messages that is independent of it. Exchange is do_request of both clients, on listed
--                outcomes of the reads. Arguments is main of client.cpp up to the request. Methods is
--                the method table and the request of client_custom_http_methods.cpp, which is written
--                to a stream there. Program is do_with_socket and both mains as a whole, from the
--                arguments to the response, over a network that answers every call or throws. ByParts
--                is server_reply_by_parts.cpp.
-- Proxy          cpp/opendht/dhtproxyserver. Restinio is proxy_restinio: the four handlers and the
--                callbacks they give to the node, as functions to a new state and a list of effects;
--                a run is any sequence of requests and callbacks. Its Lifecycle is the number of
--                threads, stop, and the route table, its Serving the way of a request through the
--                routes to its handler, its Clients the way of the bytes that client.cpp writes, its
--                Delivered the whole of client.cpp with the proxy behind its socket, its
--                Protocol the order of what is written to a request, its Settled the end of all
--                callbacks, and its Program the settings and main. Pistache is the two handlers of
--                proxy_pistache, and its Serving the routes.
--                Cpr is the two threads of proxy_cpr, as a step relation on the places of both, the
--                owner of the mutex and the condition variable.
-- Opendht        cpp/opendht. BodyLines is the callback of http.cpp on a piece of the body. Requests
--                is http.cpp, http_errors.cpp and https_2waystls.cpp: the requests, the callbacks and
--                the loop that they stop; Requests.Values runs http.cpp against the proxy of Restinio.
--                LoadFile is loadFile of https_2waystls.cpp. PutGet is the loop of putget.cpp.
--                ProxyClient is dhtclient.cpp, a step relation of main's waits and the client's thread.
--                FutureGet, AsyncClient, Serial and ProxyRunner are future-get.cpp,
--                dhtclient_async.cpp, crypto.cpp and proxy_runner.cpp.
-- Servers        cpp/server. Dyad is onLine of httpserver_dyad.cpp, and Dyad.Listeners the constructor
--                and the handlers, with the listeners that dyad calls. Hello is httpserver_restinio.cpp
--                and libhttpserver.cpp.
-- Crypto         cpp/crypto. Aes is the three programs under aes. Hex and Ocsp are ocsp.cpp: an
--                exit ends a chain of steps, as an error does; Ocsp.Files is the two files that are
--                written. ValidCa is valid_ca.cpp, whose two loops run over listed return values, and
--                ValidCa.Releases what it acquires and gives back.
-- Small          cpp itself. Heap is the free store: blocks that live or are freed, where an undefined
--                access has no result. Matrix is array_2d.cpp, Pointers and Arrays are pointers.cpp and
--                arrays.cpp, Words is split_string_on_spaces.cpp, Redirect is
--                stdout_redirect.cpp, Window is glfw_cb_context.cpp and Listing is list_files.cpp.
-- Graph          cpp/graph/enum_map.cpp: the graphs that it builds, and their printed text.
-- Arduino        arduino/serial-tests.ino: the loop over the bytes of the serial port.
-- Jami           cpp/jami/namedir.cpp: the calls of the daemon.
--
-- Fuel: decimal numbers are printed with n + 1 rounds for the number n, which has no more digits. The
-- loop of ocsp.cpp over the entries of a certificate has no bound of its own; one round more than the
-- entries that it skips is enough. The loop of putget.cpp has 128 rounds: its index begins at 2, and
-- the loop ends at the latest where the index is past 127. The loop of split_string_on_spaces.cpp has
-- one round more than the text has bytes, and each round takes a byte.
--
-- Not modelled: what the programs print where it is only a trace of progress; the settings of sockets,
-- servers and event loops; the callbacks of http_parser, which print; int overflow inside atoi, which
-- the language leaves open; and the releases of memory of ocsp.cpp.
pub mod Arduino
pub mod Async
pub mod Base
pub mod Crypto
pub mod Graph
pub mod Http
pub mod Jami
pub mod Opendht
pub mod Proxy
pub mod Servers
pub mod Small
